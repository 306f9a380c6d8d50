-- ===== src/Sim/Pipeline/State.antt =====
-- The pipeline's state: include/plab/sim/pipeline.hpp, and `makeControl` of src/sim/pipeline.cpp.
use pipeline_lab.Prelude.{ℕ, List, [], Bool, true, false, not, ◌&&◌, ◌==◌, if◌then◌else◌}
use pipeline_lab.Prelude.Int.{ℤ, negsuc}
use pipeline_lab.Isa.Opcode.{
  add, Format, r_type, i_type, b_type, j_type, format_of, is_load, is_store, is_jal, is_ret,
}
use pipeline_lab.Isa.Instruction.{Instruction, blank, zero_reg, return_addr_reg}
use pipeline_lab.Asm.Program.{Text}
use pipeline_lab.Sim.RegisterFile.{RegisterFile, initial_registers}
use pipeline_lab.Sim.Memory.{DataMemory, new_memory}

pub data Stage : Type 0 where
  if_stage id_stage ex_stage mem_stage wb_stage : Stage

-- "This operand port reads no register."
abbrev pub no_reg : ℕ
no_reg = 0xFF

unfoldable pub reads_reg : ℕ → Bool
reads_reg r = not (r == no_reg) && not (r == zero_reg)

pub record Control : Type 0 where
  pub reg_write : Bool
  pub dest_reg : ℕ
  pub mem_read : Bool
  pub mem_write : Bool
  pub alu_uses_imm : Bool
  pub is_branch : Bool
  pub is_jump : Bool
  pub is_jal : Bool
  pub is_ret : Bool
  pub a_reg : ℕ
  pub b_reg : ℕ

-- `Control c;`
abbrev pub no_control : Control
no_control = record {
  reg_write = false;
  dest_reg = 0;
  mem_read = false;
  mem_write = false;
  alu_uses_imm = false;
  is_branch = false;
  is_jump = false;
  is_jal = false;
  is_ret = false;
  a_reg = no_reg;
  b_reg = no_reg;
}

unfoldable pub control_format : Format → Instruction → Control
control_format r_type inst = record no_control {
  reg_write = true;
  dest_reg = inst.rd;
  a_reg = inst.rs;
  b_reg = inst.rt;
}
control_format i_type inst =
    let c = record no_control { alu_uses_imm = true; a_reg = inst.rs } in
    if is_load inst.op
    then record c { mem_read = true; reg_write = true; dest_reg = inst.rd }
    else if is_store inst.op
    then record c { mem_write = true; b_reg = inst.rd }
    else record c { reg_write = true; dest_reg = inst.rd }
control_format b_type inst = record no_control {
  is_branch = true;
  a_reg = inst.rs;
  b_reg = inst.rt;
}
control_format j_type inst =
    let c = record no_control { is_jump = true } in
    if is_ret inst.op
    then record no_control { is_ret = true }
    else if is_jal inst.op
    then record c { is_jal = true; reg_write = true; dest_reg = return_addr_reg }
    else c

unfoldable pub make_control : Instruction → Control
unfolding control_format
make_control inst = control_format (format_of inst.op) inst

pub record Latch : Type 0 where
  pub bubble : Bool
  pub id : ℤ
  pub inst : Instruction
  pub pc : ℕ
  pub ctrl : Control
  pub a_val : ℕ
  pub b_val : ℕ
  pub alu_result : ℕ
  pub store_data : ℕ
  pub write_data : ℕ

-- `Latch{}`: a bubble, whose trace id is -1.
abbrev pub empty_latch : Latch
empty_latch = record {
  bubble = true;
  id = negsuc 0;
  inst = blank add;
  pc = 0;
  ctrl = no_control;
  a_val = 0;
  b_val = 0;
  alu_result = 0;
  store_data = 0;
  write_data = 0;
}

pub record TraceEvent : Type 0 where
  pub id : ℤ
  pub cycle : ℕ
  pub stage : Stage

pub record TracedInstr : Type 0 where
  pub pc : ℕ
  pub source_line : ℕ
  pub text : Text

pub record PipelineStats : Type 0 where
  pub cycles : ℕ
  pub retired : ℕ
  pub stall_cycles : ℕ
  pub flushes : ℕ
  pub flush_bubbles : ℕ
  pub forwards : ℕ

abbrev pub no_stats : PipelineStats
no_stats = record {
  cycles = 0;
  retired = 0;
  stall_cycles = 0;
  flushes = 0;
  flush_bubbles = 0;
  forwards = 0;
}

pub record Pipeline : Type 0 where
  pub regs : RegisterFile
  pub mem : DataMemory
  pub forwarding : Bool
  pub ifid : Latch
  pub idex : Latch
  pub exmem : Latch
  pub memwb : Latch
  pub pc : ℕ
  pub fetch_stopped : Bool
  pub next_id : ℕ
  pub cycle : ℕ
  pub stats : PipelineStats
  pub trace : List TraceEvent
  pub traced : List TracedInstr

unfoldable pub new_pipeline : ℕ → Bool → Pipeline
unfolding initial_registers new_memory
new_pipeline data_bytes enable_forwarding = record {
  regs = initial_registers;
  mem = new_memory data_bytes;
  forwarding = enable_forwarding;
  ifid = empty_latch;
  idex = empty_latch;
  exmem = empty_latch;
  memwb = empty_latch;
  pc = 0;
  fetch_stopped = false;
  next_id = 0;
  cycle = 0;
  stats = no_stats;
  trace = [];
  traced = [];
}
