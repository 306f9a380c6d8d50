-- ===== src/Sim/Interpreter/Faults.antt =====
-- The runs of `Interpreter::run`, src/sim/interpreter.cpp, that throw.
use pipeline_lab.Prelude.{
  ℕ, zero, suc, ◌<◌, ◌≡◌, refl, sym, ap, ◌∙◌, inl, inr, arith, true, ok, err, >>=-eq-err,
  err-injective, true-not-false,
}
use pipeline_lab.Isa.Instruction.{Instruction}
use pipeline_lab.Isa.Encoding.{decode}
use pipeline_lab.Asm.Program.{Program, code_bytes, word_at}
use pipeline_lab.Sim.Fault.{Fault}
use pipeline_lab.Sim.Interpreter.{Interpreter, Progress, running, returned, step, run}
use pipeline_lab.Sim.Interpreter.Semantics.{step-eq-running}
use pipeline_lab.Sim.Interpreter.Thrown.{is_memory_fault, step-Refuses}

-- How a run that throws begins.
pub data Faults (program : Program) (k : ℕ) (s : Interpreter) (fault : Fault) : Type 0 where
  goes :
      (s' : Interpreter)
      → step program s ≡ ok (running s')
      → run k program s' ≡ err fault
      → Faults program k s fault
  throws : step program s ≡ err fault → Faults program k s fault

pub run-Faults :
    (program : Program) (k : ℕ) (s : Interpreter) (fault : Fault)
    → run (suc k) program s ≡ err fault
    → Faults program k s fault
unfolding run
run-Faults program k s fault h = elim (>>=-eq-err (step program s) _ h) [
  | inl thrown ↦ throws thrown
  | inr (progress, stepped, rest) ↦ go progress stepped rest
]
  where
    go :
        (progress : Progress)
        → step program s ≡ ok progress
        → (elim progress [ running s' ↦ run k program s' | returned s' ↦ ok s' ]) ≡ err fault
        → Faults program k s fault
    go (running s') stepped rest = goes s' stepped rest
    go (returned s') stepped rest = absurd (ground arith)

-- Such a run with an exception of the data memory is at an instruction of the code.
pub run_faults_in_code :
    (program : Program) (k : ℕ) (s : Interpreter) (fault : Fault)
    → is_memory_fault fault ≡ true
    → run k program s ≡ err fault
    → (j : ℕ) × (k ≡ suc j)
      × (inst : Instruction) × (s.pc < code_bytes program)
      × (decode (word_at program s.pc) ≡ ok inst)
unfolding run
run_faults_in_code program zero s fault memory h =
    absurd (true-not-false (sym memory ∙ ap is_memory_fault (sym (err-injective h))))
run_faults_in_code program (suc k) s fault memory h = elim (run-Faults program k s fault h) [
  | goes s' stepped _ ↦
      let found = step-eq-running program s s' stepped in (k, refl, found.0, found.1, found.2)
  | throws thrown ↦
      let found = step-Refuses program s fault memory thrown in (k, refl, found.0, found.1, found.2)
]
