-- ===== src/Sim/Interpreter/Typing.antt =====
-- What the interpreter of src/sim/interpreter.cpp keeps of its state: the shape of the registers and
-- of the memory, and 32-bit values in them.
use pipeline_lab.Prelude.{
  ℕ, zero, suc, ◌+◌, ◌/◌, ◌%◌, ◌-◌, ◌≡◌, refl, sym, ap, ◌∙◌, arith, ok, All-replicate,
}
use mathlib.Core.Path.{subst}
use pipeline_lab.Words.{IsWord}
use pipeline_lab.Isa.Instruction.{Instruction, zero_reg}
use pipeline_lab.Isa.Encoding.Decoding.{decode-IsDecoded}
use pipeline_lab.Asm.Program.{Program}
use pipeline_lab.Sim.RegisterFile.{
  RegisterFile, read, write-zero, initial_registers, IsRegisterFile, write-IsRegisterFile,
  initial_registers-IsRegisterFile,
}
use pipeline_lab.Sim.Memory.{DataMemory, new_memory}
use pipeline_lab.Sim.Memory.Laws.{
  IsMemory, new_memory-IsMemory, store_word-eq-ok, store_word-load_word,
}
use pipeline_lab.Sim.Bounds.{AreWords, Executes-AreWords}
use pipeline_lab.Sim.Interpreter.{Interpreter, run, new_interpreter}
use pipeline_lab.Sim.Interpreter.Semantics.{
  Executes, alu_reg, alu_imm, load, store, taken, not_taken, jump, link, step-eq-running,
  step-eq-returned,
}
use pipeline_lab.Sim.Interpreter.Runs.{Begins, goes, ends, run-Begins}

pub record IsTyped (size : ℕ) (s : Interpreter) : Type 0 where
  pub sixteen : IsRegisterFile s.regs
  pub words : AreWords s.regs s.mem
  pub memory : IsMemory s.mem
  pub sized : s.mem.size_bytes ≡ size
  pub zero_kept : read s.regs zero_reg ≡ 0

-- The shape of the registers and of the memory.
abbrev Shape : ℕ → RegisterFile → DataMemory → Type 0
Shape size regs mem = IsRegisterFile regs × IsMemory mem × (mem.size_bytes ≡ size)

Executes-Shape :
    {inst : Instruction} {s s' : Interpreter} (size : ℕ)
    → Shape size s.regs s.mem
    → Executes inst s s'
    → Shape size s'.regs s'.mem
Executes-Shape size (h, good, sized) (alu_reg f) = (write-IsRegisterFile _ _ _ h, good, sized)
Executes-Shape size (h, good, sized) (alu_imm f l t) = (write-IsRegisterFile _ _ _ h, good, sized)
Executes-Shape size (h, good, sized) (load v f l e) = (write-IsRegisterFile _ _ _ h, good, sized)
Executes-Shape {s = s} size (h, good, sized) (store m f l t e) = (
  h,
  (store_word-load_word s.mem m _ _ good e).0,
  ap (λ n. n.size_bytes) (store_word-eq-ok s.mem _ _ e).1 ∙ sized,
)
Executes-Shape size shape (taken f t) = shape
Executes-Shape size shape (not_taken f t) = shape
Executes-Shape size shape (jump f r l) = shape
Executes-Shape size (h, good, sized) (link f r l) = (write-IsRegisterFile _ _ _ h, good, sized)

-- No instruction changes r0.
Executes-zero :
    {inst : Instruction} {s s' : Interpreter}
    → read s.regs zero_reg ≡ 0
    → Executes inst s s'
    → read s'.regs zero_reg ≡ 0
Executes-zero z (alu_reg f) = write-zero _ _ _ ∙ z
Executes-zero z (alu_imm f l t) = write-zero _ _ _ ∙ z
Executes-zero z (load v f l e) = write-zero _ _ _ ∙ z
Executes-zero z (store m f l t e) = z
Executes-zero z (taken f t) = z
Executes-zero z (not_taken f t) = z
Executes-zero z (jump f r l) = z
Executes-zero z (link f r l) = write-zero _ _ _ ∙ z

Executes-IsTyped :
    {inst : Instruction} {s s' : Interpreter} (size : ℕ)
    → IsWord inst.imm
    → IsTyped size s
    → Executes inst s s'
    → IsTyped size s'
Executes-IsTyped size imm t x =
    let (sixteen, memory, sized) = Executes-Shape size (t.sixteen, t.memory, t.sized) x in
    record {
      sixteen = sixteen;
      words = Executes-AreWords imm t.words x;
      memory = memory;
      sized = sized;
      zero_kept = Executes-zero t.zero_kept x;
    }

abbrev counted : Interpreter → Interpreter
counted s = record s { retired = s.retired + 1 }

counted-IsTyped : (size : ℕ) (s : Interpreter) → IsTyped size s → IsTyped size (counted s)
counted-IsTyped size s t = record {
  sixteen = t.sixteen;
  words = record { regs_words = t.words.regs_words; mem_words = t.words.mem_words };
  memory = t.memory;
  sized = t.sized;
  zero_kept = t.zero_kept;
}

-- A run that ends keeps the types of its state: 16 registers and the words of the memory, all of
-- them 32-bit patterns, a memory of the same size, and 0 in r0.
pub run-IsTyped :
    (program : Program) (size k : ℕ) (s e : Interpreter)
    → IsTyped size s
    → run k program s ≡ ok e
    → IsTyped size e
unfolding run
run-IsTyped program size zero s e t h = cc
run-IsTyped program size (suc k) s e t h =
    go (run-Begins program k s e h) (λ s' t'. run-IsTyped program size k s' e t')
  where
    go :
        Begins program k s e
        → ((s' : Interpreter) → IsTyped size s' → run k program s' ≡ ok e → IsTyped size e)
        → IsTyped size e
    go (goes s' stepped rest) ih =
        let (inst, _, decodes, executes) = step-eq-running program s s' stepped in
        ih s'
          (Executes-IsTyped size (decode-IsDecoded _ decodes).imm_word (counted-IsTyped size s t)
            executes)
          rest
    go (ends stepped) ih =
        subst (IsTyped size) (sym (step-eq-returned program s e stepped).5)
          (counted-IsTyped size s t)

pub new_interpreter-IsTyped :
    (bytes : ℕ) → IsWord bytes → IsTyped (bytes - bytes % 4) (new_interpreter bytes)
unfolding new_interpreter new_memory initial_registers read
new_interpreter-IsTyped bytes small = record {
  sixteen = initial_registers-IsRegisterFile;
  words = record {
    regs_words = All-replicate IsWord 16 0 (omega arith);
    mem_words = All-replicate IsWord (bytes / 4) 0 (omega arith);
  };
  memory = new_memory-IsMemory bytes small;
  sized = refl;
  zero_kept = refl;
}
