-- ===== src/Sim/Pipeline/Complete.antt =====
-- `Pipeline::run` of src/sim/pipeline.cpp does nothing that `Interpreter::run` of
-- src/sim/interpreter.cpp does not do.
use pipeline_lab.Prelude.{
  ℕ, zero, suc, ◌+◌, ◌*◌, ◌≤◌, ◌≡◌, refl, sym, ap, ◌∙◌, ◌⊎◌, arith, Bool, Bool-cases, inl, inr,
  true, Result, ok, err, ok-injective, ◌>>=◌, ◌-◌, if-true, if-false, err-injective,
}
use mathlib.Core.Path.{subst}
use pipeline_lab.Asm.Program.{Program}
use pipeline_lab.Sim.Fault.{Fault, pc_out_of_range, step_limit, cycle_limit}
use pipeline_lab.Sim.Interpreter
use pipeline_lab.Sim.Interpreter.{Interpreter, new_interpreter}
use pipeline_lab.Sim.Interpreter.Thrown.{
  is_memory_fault, Thrown, off_code, undecoded, no_access, Refuses-fault, step-Thrown, ok-not-err,
}
use pipeline_lab.Sim.Interpreter.Faults.{goes, throws, run-Faults}
use pipeline_lab.Sim.Pipeline.State.{Pipeline, new_pipeline}
use pipeline_lab.Sim.Pipeline.Cycle.{cycle, drained, run_loop, run}
use pipeline_lab.Sim.Pipeline.Fetching.{AllDecode}
use pipeline_lab.Sim.Pipeline.Refinement.{Paced}
use pipeline_lab.Sim.Pipeline.Drain.{run_loop-drained}
use pipeline_lab.Sim.Pipeline.Correct.{run-Paced}
use pipeline_lab.Sim.Pipeline.Faults.{run_throws}
use pipeline_lab.Sim.Pipeline.Endless.{Unfinished, ran_off, too_few, run-Unfinished}

>>=-same :
    {A B E : Type 0} (m : Result E A) (k l : A → Result E B) (r : Result E B)
    → ((a : A) → k a ≡ r → l a ≡ r)
    → (m >>= k) ≡ r
    → (m >>= l) ≡ r
>>=-same (ok a) k l r same h = same a h
>>=-same (err e) k l r same h = h

-- A result that is not the cycle limit does not depend on the limit.
run_loop_more :
    (program : Program) (fewer more : ℕ) (p : Pipeline) (r : Result Fault Pipeline)
    → fewer ≤ more
    → ¬ (r ≡ err cycle_limit)
    → run_loop fewer program p ≡ r
    → run_loop more program p ≡ r
unfolding run_loop
run_loop_more program zero more p r le early h = elim (Bool-cases (drained p)) [
  | inl over ↦ run_loop-drained program more p over ∙ sym (if-true _ _ over) ∙ h
  | inr busy ↦ absurd (early (sym h ∙ if-false _ _ busy))
]
run_loop_more program (suc fewer) zero p r le early h = absurd (omega arith)
run_loop_more program (suc fewer) (suc more) p r le early h = elim (Bool-cases (drained p)) [
  | inl over ↦ if-true _ _ over ∙ sym (if-true _ _ over) ∙ h
  | inr busy ↦
      if-false _ _ busy
      ∙ >>=-same (cycle program p) (run_loop fewer program) (run_loop more program) r
          (λ p'. run_loop_more program fewer more p' r (omega arith) early)
          (sym (if-false _ _ busy) ∙ h)
]

-- The exceptions of a run on words that decode.
run_errors :
    (program : Program) (all : AllDecode program) (k : ℕ) (s : Interpreter) (fault : Fault)
    → Interpreter.run k program s ≡ err fault
    → (is_memory_fault fault ≡ true)
      ⊎ (((pc : ℕ) × (pc_out_of_range pc ≡ fault)) ⊎ (step_limit ≡ fault))
unfolding Interpreter.run
run_errors program all zero s fault h = inr (inr (err-injective h))
run_errors program all (suc k) s fault h = elim (run-Faults program k s fault h) [
  | goes s' _ more ↦ run_errors program all k s' fault more
  | throws thrown ↦ go (step-Thrown program s fault thrown)
]
  where
    go :
        {fault : Fault}
        → Thrown program s fault
        → (is_memory_fault fault ≡ true)
          ⊎ (((pc : ℕ) × (pc_out_of_range pc ≡ fault)) ⊎ (step_limit ≡ fault))
    go (off_code past) = inr (inl (s.pc, refl))
    go (undecoded e here fails) =
        let (inst, decodes) = all s.pc here in absurd (ok-not-err (sym decodes ∙ fails))
    go (no_access _ _ _ refuses) = inl (Refuses-fault refuses)

-- What the interpreter does within `n` steps where the pipeline has the result.
pub data Agrees (program : Program) (bytes n : ℕ) : Result Fault Pipeline → Type 0 where
  ended :
      (final : Pipeline) (end : Interpreter)
      → Interpreter.run n program (new_interpreter bytes) ≡ ok end
      → final.regs ≡ end.regs
      → final.mem ≡ end.mem
      → final.stats.retired ≡ end.retired
      → Agrees program bytes n (ok final)
  refused :
      (fault : Fault)
      → is_memory_fault fault ≡ true
      → Interpreter.run n program (new_interpreter bytes) ≡ err fault
      → Agrees program bytes n (err fault)

module _ (program : Program) (bytes n : ℕ) (forwarding : Bool) (all : AllDecode program)
    (paced : Paced program forwarding)
    (early : ¬ (run n program (new_pipeline bytes forwarding) ≡ err cycle_limit)) where
  abbrev result : Result Fault Pipeline
  result = run n program (new_pipeline bytes forwarding)

  -- The same result within a higher limit.
  same_later :
      (more : ℕ) (r : Result Fault Pipeline)
      → n ≤ more
      → run more program (new_pipeline bytes forwarding) ≡ r
      → r ≡ result
  unfolding run new_pipeline
  same_later more r le h =
      sym h
      ∙ run_loop_more program (n - 0) (more - 0) (new_pipeline bytes forwarding) result
          (omega arith) early refl

  run-Agrees_by :
      (r : Result Fault Interpreter)
      → Interpreter.run n program (new_interpreter bytes) ≡ r
      → Agrees program bytes n result
  run-Agrees_by (ok end) h =
      let limit = n + (3 * end.retired + 2) in
      let (final, ends, regs, mem, retired, _) =
        run-Paced program bytes n limit forwarding end paced all h (omega arith) in
      subst (Agrees program bytes n) (same_later limit (ok final) (omega arith) ends)
        (ended final end h regs mem retired)
  run-Agrees_by (err fault) h = elim (run_errors program all n (new_interpreter bytes) fault h) [
    | inl memory ↦
        subst (Agrees program bytes n)
          (same_later (3 * n + 2) (err fault) (omega arith) (
            run_throws program bytes n (3 * n + 2) forwarding fault memory all paced h
              (omega arith)))
          (refused fault memory h)
    | inr (inl (pc, off)) ↦ absurd (
        early (
          run-Unfinished program bytes n n forwarding fault all paced h
            (subst (Unfinished n n) off (ran_off pc))))
    | inr (inr more) ↦ absurd (
        early (
          run-Unfinished program bytes n n forwarding fault all paced h
            (subst (Unfinished n n) more (too_few (omega arith)))))
  ]

-- The pipeline does nothing that the interpreter does not do, from reset, with forwarding or
-- without: if every word of the program decodes, the program is separated or forwarding is on, and
-- the pipeline does not reach its limit of `n` cycles, then the interpreter is done within `n`
-- steps. Where the pipeline has drained, the interpreter has returned with the same registers, the
-- same memory and the same number of instructions; where the pipeline has thrown, it is a fault of
-- the data memory, and the interpreter has thrown the same.
pub run-Agrees :
    (program : Program) (bytes n : ℕ) (forwarding : Bool)
    → AllDecode program
    → Paced program forwarding
    → ¬ (run n program (new_pipeline bytes forwarding) ≡ err cycle_limit)
    → Agrees program bytes n (run n program (new_pipeline bytes forwarding))
run-Agrees program bytes n forwarding all paced early =
    run-Agrees_by program bytes n forwarding all paced early
      (Interpreter.run n program (new_interpreter bytes)) refl

-- The interpreter's end behind a pipeline that has drained.
pub Agrees-ok :
    {program : Program} {bytes n : ℕ} {r : Result Fault Pipeline} {final : Pipeline}
    → Agrees program bytes n r
    → r ≡ ok final
    → (end : Interpreter) × (Interpreter.run n program (new_interpreter bytes) ≡ ok end)
      × (final.regs ≡ end.regs)
      × (final.mem ≡ end.mem)
      × (final.stats.retired ≡ end.retired)
Agrees-ok (ended final' end h regs mem retired) e =
    let same = ok-injective (sym e) in
    (
      end,
      h,
      ap (λ (p : Pipeline). p.regs) same ∙ regs,
      ap (λ (p : Pipeline). p.mem) same ∙ mem,
      ap (λ (p : Pipeline). p.stats.retired) same ∙ retired,
    )
Agrees-ok (refused fault _ _) e = absurd (ok-not-err (sym e))
