-- ===== src/Sim/Bounds.antt =====
-- The interpreter keeps every register and every memory word a 32-bit pattern: src/sim/alu.cpp,
-- src/sim/interpreter.cpp, include/plab/sim/memory.hpp.
use native.Mathlib.Nat.{div-le_self}
use pipeline_lab.Prelude.{
  ap, ◌^◌, bit_and, ℕ, ◌/◌, ◌≡◌, arith, All, All-get_or, All-set, get_elem?-All, ok,
}
use pipeline_lab.Words.{IsWord}
use pipeline_lab.Words.Bits.{bit_and-lt, bit_or-lt, bit_xor-lt}
use pipeline_lab.Isa.Opcode.{
  Opcode, add, sub, and, or, xor, sll, srl, slt, addi, andi, ori, xori, slti,
}
use pipeline_lab.Isa.Instruction.{Instruction, return_addr_reg}
use pipeline_lab.Sim.RegisterFile.{RegisterFile, read, write}
use pipeline_lab.Sim.Memory.{DataMemory, load_word, store_word}
use pipeline_lab.Sim.Memory.Laws.{load_word-eq-ok, store_word-eq-ok}
use pipeline_lab.Sim.Alu.{alu_result}
use pipeline_lab.Sim.Interpreter.{Interpreter}
use pipeline_lab.Sim.Interpreter.Semantics.{
  Executes, alu_reg, alu_imm, load, store, taken, not_taken, jump, link,
}

-- The result of an ALU operation on 32-bit patterns is one.
pub alu_result-IsWord : (op : Opcode) (a b : ℕ) → IsWord a → IsWord b → IsWord (alu_result op a b)
unfolding alu_result
alu_result-IsWord add a b ha hb = omega arith
alu_result-IsWord addi a b ha hb = omega arith
alu_result-IsWord sub a b ha hb = omega arith
alu_result-IsWord and a b ha hb = bit_and-lt 32 a b ha hb
alu_result-IsWord andi a b ha hb = bit_and-lt 32 a b ha hb
alu_result-IsWord or a b ha hb = bit_or-lt 32 a b ha hb
alu_result-IsWord ori a b ha hb = bit_or-lt 32 a b ha hb
alu_result-IsWord xor a b ha hb = bit_xor-lt 32 a b ha hb
alu_result-IsWord xori a b ha hb = bit_xor-lt 32 a b ha hb
alu_result-IsWord sll a b ha hb = omega arith
alu_result-IsWord srl a b ha hb = omega (arith, div-le_self a (2 ^ bit_and b 31))
alu_result-IsWord slt a b ha hb = ground arith
alu_result-IsWord slti a b ha hb = ground arith
alu_result-IsWord _ a b ha hb = omega arith

-- Every register and every memory word is a 32-bit pattern.
pub record AreWords (regs : RegisterFile) (mem : DataMemory) : Type 0 where
  pub regs_words : All IsWord regs.regs
  pub mem_words : All IsWord mem.words

pub read-IsWord : (r : RegisterFile) (i : ℕ) → All IsWord r.regs → IsWord (read r i)
unfolding read
read-IsWord r i h = All-get_or IsWord r.regs i 0 h (omega arith)

pub write-words :
    (r : RegisterFile) (i v : ℕ) → All IsWord r.regs → IsWord v → All IsWord (write r i v).regs
unfolding write
write-words r i v h hv = ground (arith, All-set IsWord r.regs i v h hv)

pub load_word-IsWord :
    (m : DataMemory) (addr : ℕ) {v : ℕ} → All IsWord m.words → load_word m addr ≡ ok v → IsWord v
load_word-IsWord m addr h e = get_elem?-All IsWord m.words (addr / 4) h (load_word-eq-ok m addr e).1

pub store_word-words :
    (m : DataMemory) (addr v : ℕ) {m' : DataMemory}
    → All IsWord m.words
    → IsWord v
    → store_word m addr v ≡ ok m'
    → All IsWord m'.words
store_word-words m addr v h hv e =
    let (inside, stored) = store_word-eq-ok m addr v e in
    rw (ap (λ t. t.words) stored) (All-set IsWord m.words (addr / 4) v h hv)

-- The execution of an instruction whose immediate is a 32-bit pattern keeps every register and every
-- memory word a 32-bit pattern.
pub Executes-AreWords :
    {inst : Instruction} {s s' : Interpreter}
    → IsWord inst.imm
    → AreWords s.regs s.mem
    → Executes inst s s'
    → AreWords s'.regs s'.mem
Executes-AreWords {inst} {s} hi h (alu_reg f) = record {
  regs_words = write-words s.regs inst.rd _ h.regs_words (
      alu_result-IsWord inst.op _ _ (read-IsWord s.regs inst.rs h.regs_words)
        (read-IsWord s.regs inst.rt h.regs_words));
  mem_words = h.mem_words;
}
Executes-AreWords {inst} {s} hi h (alu_imm f l t) = record {
  regs_words =
      write-words s.regs inst.rd _ h.regs_words
        (alu_result-IsWord inst.op _ _ (read-IsWord s.regs inst.rs h.regs_words) hi);
  mem_words = h.mem_words;
}
Executes-AreWords {inst} {s} hi h (load v f l e) = record {
  regs_words = write-words s.regs inst.rd v h.regs_words (load_word-IsWord s.mem _ h.mem_words e);
  mem_words = h.mem_words;
}
Executes-AreWords {inst} {s} hi h (store m f l t e) = record {
  regs_words = h.regs_words;
  mem_words =
      store_word-words s.mem _ (read s.regs inst.rd) h.mem_words
        (read-IsWord s.regs inst.rd h.regs_words) e;
}
Executes-AreWords hi h (taken f t) = h
Executes-AreWords hi h (not_taken f t) = h
Executes-AreWords hi h (jump f r l) = h
Executes-AreWords {s} hi h (link f r l) = record {
  regs_words = write-words s.regs return_addr_reg _ h.regs_words (omega arith);
  mem_words = h.mem_words;
}
