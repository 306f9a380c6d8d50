-- ===== src/Sim/Interpreter.antt =====
-- include/plab/sim/interpreter.hpp and src/sim/interpreter.cpp: the sequential reference
-- interpreter. A fault is the exception thrown, without the state that it leaves behind.
pub mod Semantics
pub mod Meaning
pub mod Runs
pub mod Typing
pub mod Thrown
pub mod Faults
use pipeline_lab.Prelude.{
  ℕ, zero, suc, ◌+◌, ◌/◌, get_or, if◌then◌else◌, Result, ok, err, ◌>>=◌, ◌>>◌, guard, ltb,
}
use pipeline_lab.Prelude.Int.{pos, ◌+ℤ◌}
use pipeline_lab.Words.{u32, signed, to_word}
use pipeline_lab.Isa.Opcode.{
  Format, r_type, i_type, b_type, j_type, format_of, is_load, is_store, is_jal, is_ret,
}
use pipeline_lab.Isa.Instruction.{Instruction, return_addr_reg}
use pipeline_lab.Isa.Encoding.{decode}
use pipeline_lab.Asm.Program.{Program, instruction_bytes, code_bytes}
use pipeline_lab.Sim.Fault.{Fault, or_fault, pc_out_of_range, step_limit}
use pipeline_lab.Sim.RegisterFile.{RegisterFile, read, write, initial_registers}
use pipeline_lab.Sim.Memory.{DataMemory, new_memory, load_word, store_word}
use pipeline_lab.Sim.Alu.{alu_result, branch_taken}

pub record Interpreter : Type 0 where
  pub regs : RegisterFile
  pub mem : DataMemory
  pub pc : ℕ
  pub retired : ℕ

unfoldable pub new_interpreter : ℕ → Interpreter
unfolding initial_registers new_memory
new_interpreter data_bytes = record {
  regs = initial_registers;
  mem = new_memory data_bytes;
  pc = 0;
  retired = 0;
}

-- One round of the loop goes on, or returns at a RET.
pub data Progress : Type 0 where
  running : Interpreter → Progress
  returned : Interpreter → Progress

-- Advance PC by a signed byte offset, through 64 bits.
unfoldable pub add_offset : ℕ → ℕ → ℕ
unfolding ◌+ℤ◌
add_offset pc offset = to_word (pos pc +ℤ signed offset)

-- The branches of the `switch` on the instruction's format.
unfoldable pub execute_format : Format → Instruction → Interpreter → Result Fault Progress
execute_format r_type inst s = ok (
    running (record s {
      regs = write s.regs inst.rd (alu_result inst.op (read s.regs inst.rs) (read s.regs inst.rt));
      pc = u32 (s.pc + instruction_bytes);
    }))
execute_format i_type inst s =
    if is_load inst.op
    then (do
      value ← load_word s.mem (add_offset (read s.regs inst.rs) inst.imm)
      ok (
          running
            (record s { regs = write s.regs inst.rd value; pc = u32 (s.pc + instruction_bytes) })))
    else if is_store inst.op
    then (do
      mem ← store_word s.mem (add_offset (read s.regs inst.rs) inst.imm) (read s.regs inst.rd)
      ok (running (record s { mem = mem; pc = u32 (s.pc + instruction_bytes) })))
    else ok (
        running (record s {
          regs = write s.regs inst.rd (alu_result inst.op (read s.regs inst.rs) inst.imm);
          pc = u32 (s.pc + instruction_bytes);
        }))
execute_format b_type inst s = ok (
    running (record s {
      pc =
          if branch_taken inst.op (read s.regs inst.rs) (read s.regs inst.rt)
          then add_offset s.pc inst.imm
          else u32 (s.pc + instruction_bytes);
    }))
execute_format j_type inst s =
    if is_ret inst.op
    then ok (returned s)
    else ok (
        running (record s {
          regs =
              if is_jal inst.op
              then write s.regs return_addr_reg (u32 (s.pc + instruction_bytes))
              else s.regs;
          pc = inst.target;
        }))

-- One round of the loop: the fetch with its range check, and the execution.
unfoldable pub step : Program → Interpreter → Result Fault Progress
step program s = do
  guard (ltb s.pc (code_bytes program)) (pc_out_of_range s.pc)
  inst ← or_fault (decode (get_or program.words (s.pc / instruction_bytes) 0))
  execute_format (format_of inst.op) inst (record s { retired = s.retired + 1 })

-- The loop, by the steps that are left.
unfoldable pub run : ℕ → Program → Interpreter → Result Fault Interpreter
run zero program s = err step_limit
run (suc left) program s =
    let again = run left program in
    step program s >>= elim [ running s' ↦ again s' | returned s' ↦ ok s' ]
