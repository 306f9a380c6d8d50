-- ===== src/Sim/Pipeline/Endless.antt =====
-- The runs that `Pipeline::run`, src/sim/pipeline.cpp, gives up at its cycle limit: what the
-- interpreter of src/sim/interpreter.cpp does with the same program.
use pipeline_lab.Prelude.{
  ℕ, zero, suc, ◌+◌, ◌≤◌, ◌<◌, ◌≡◌, refl, sym, ap, ◌∙◌, arith, Bool, Bool-cases, inl, inr, true,
  false, ok, err, if-false, ltb, err-injective, true-not-false,
}
use mathlib.Core.Path.{subst}
use pipeline_lab.Words.{u32}
use pipeline_lab.Isa.Encoding.Decoding.{decode-IsDecoded}
use pipeline_lab.Asm.Program.{Program, code_bytes}
use pipeline_lab.Sim.Fault.{Fault, pc_out_of_range, step_limit, cycle_limit}
use pipeline_lab.Sim.Bounds.{AreWords, Executes-AreWords}
use pipeline_lab.Sim.Interpreter
use pipeline_lab.Sim.Interpreter.{Interpreter, new_interpreter, step}
use pipeline_lab.Sim.Interpreter.Thrown.{
  is_memory_fault, Thrown, off_code, undecoded, no_access, Refuses-fault, step-Thrown, ok-not-err,
}
use pipeline_lab.Sim.Interpreter.Faults.{goes, throws, run-Faults}
use pipeline_lab.Sim.Pipeline.State.{Pipeline, new_pipeline, empty_latch}
use pipeline_lab.Sim.Pipeline.Stages.{access, write_back, record_stages}
use pipeline_lab.Sim.Pipeline.Cycle.{run_loop, run}
use pipeline_lab.Sim.Pipeline.Stepping.{
  in_ex, cycle_flow, will_fetch, counted, decode_stage_idle, fetch_past_end,
}
use pipeline_lab.Sim.Pipeline.Committing.{commit_through, commit_flush, no_stall_ifid}
use pipeline_lab.Sim.Pipeline.Fetching.{AllDecode, fetch_some}
use pipeline_lab.Sim.Pipeline.Refinement.{
  Front, empty, one_fetched, last, full, Rest, Matches, Paced,
}
use pipeline_lab.Sim.Pipeline.Working.{outcome, executed, flush_flows, Working, Working-Commits}
use pipeline_lab.Sim.Pipeline.Drain.{run_loop_step, fetching_busy}
use pipeline_lab.Sim.Pipeline.Progress.{approach, retire, step-Working, new-Matches, new_words}
use pipeline_lab.Sim.Pipeline.Hazards.{run_loop-past_end}
use pipeline_lab.Sim.Pipeline.Correct.{sub-zero}

module _ (program : Program) (p : Pipeline) (s s' : Interpreter) (w : Working program p s s')
    (past : code_bytes program ≤ s'.pc) where
  -- A jump or a taken branch out of the code.
  leave_flush :
      AllDecode program
      → Rest program p s.pc
      → (outcome p).flush_younger ≡ true
      → (left : ℕ) → run_loop (suc left) program p ≡ err cycle_limit
  unfolding write_back record_stages
  leave_flush all rest flush left =
      let q = counted (in_ex program p s.mem) in
      let c = Working-Commits w in
      let flow = flush_flows program p s w.paced w.behind w.entered rest flush in
      let (count, target) = c.flushed flush in
      let (traced, next_id, l, fetch_eq) = fetch_some program q all w.fetching in
      run_loop_step program left p _ (fetching_busy p w.fetching) (
        cycle_flow program p s.mem w.behind.done _ l q _ (outcome p) _ w.behind.accessed
          (executed program p s w.entered.fetched.real) flow refl refl fetch_eq
        ∙ ap ok (commit_flush _ (outcome p) _ _ _ _ flush c.goes_on count))
      ∙ run_loop-past_end program left _ s'.mem c.done w.fetching refl refl c.accessed
          (subst (λ pc. code_bytes program ≤ pc) (sym target) past)

  -- The last instruction of the code, which goes on to the next address.
  leave_end :
      p.ifid.bubble ≡ true
      → p.pc ≡ u32 (s.pc + 4)
      → (outcome p).flush_younger ≡ false
      → (left : ℕ) → run_loop (suc left) program p ≡ err cycle_limit
  unfolding write_back record_stages
  leave_end no_ifid here through left =
      let q = counted (in_ex program p s.mem) in
      let c = Working-Commits w in
      let at : s'.pc ≡ p.pc = c.sequential through ∙ sym here in
      let past_here : code_bytes program ≤ p.pc = subst (λ pc. code_bytes program ≤ pc) at past in
      let fetches : will_fetch program p ≡ false = ground arith in
      run_loop_step program left p _ (fetching_busy p w.fetching) (
        cycle_flow program p s.mem w.behind.done empty_latch empty_latch q q (outcome p) false
          w.behind.accessed (executed program p s w.entered.fetched.real) (no_stall_ifid p no_ifid)
          fetches (decode_stage_idle q no_ifid) (fetch_past_end program q past_here)
        ∙ ap ok (commit_through false (outcome p) empty_latch empty_latch w.behind.done q through))
      ∙ run_loop-past_end program left _ s'.mem c.done w.fetching refl refl c.accessed past_here

  -- An instruction that leads out of the code.
  leave :
      AllDecode program
      → Front program p s.pc
      → Rest program p s.pc
      → (left : ℕ) → run_loop (suc left) program p ≡ err cycle_limit
  leave all front rest left = elim (Bool-cases (outcome p).flush_younger) [
    | inl flush ↦ leave_flush all rest flush left
    | inr through ↦ go front through
  ]
    where
      go :
          Front program p s.pc
          → (outcome p).flush_younger ≡ false
          → run_loop (suc left) program p ≡ err cycle_limit
      go (empty idle _ _) through = absurd (true-not-false (sym idle ∙ w.entered.fetched.real))
      go (one_fetched idle _ _) through =
          absurd (true-not-false (sym idle ∙ w.entered.fetched.real))
      go (last _ no_ifid here _) through = leave_end no_ifid here through left
      go (full _ f _) through =
          let on_path = (Working-Commits w).sequential through in
          let in_code = f.in_code in absurd (omega arith)

-- The interpreter's exceptions that leave the pipeline, within `left` cycles, at its limit: the PC
-- past the end of the code, and as many steps without an end.
pub data Unfinished (left k : ℕ) : Fault → Type 0 where
  ran_off : (pc : ℕ) → Unfinished left k (pc_out_of_range pc)
  too_few : left ≤ k → Unfinished left k step_limit

Unfinished-pred :
    {left k : ℕ} {fault : Fault} → Unfinished (suc left) (suc k) fault → Unfinished left k fault
Unfinished-pred (ran_off pc) = ran_off pc
Unfinished-pred (too_few h) = too_few (omega arith)

Unfinished-suc :
    {left k : ℕ} {fault : Fault}
    → Unfinished (suc left) (suc k) fault
    → Unfinished left (suc k) fault
Unfinished-suc (ran_off pc) = ran_off pc
Unfinished-suc (too_few h) = too_few (omega arith)

Unfinished-zero :
    {left : ℕ} {fault : Fault} → Unfinished (suc left) zero fault → ¬ (step_limit ≡ fault)
Unfinished-zero (ran_off pc) h = cc
Unfinished-zero (too_few h) _ = omega arith

Unfinished-fault :
    {left k : ℕ} {fault : Fault} → Unfinished left k fault → is_memory_fault fault ≡ false
Unfinished-fault (ran_off pc) = refl
Unfinished-fault (too_few h) = refl

module _ (program : Program) (all : AllDecode program) where
  -- An instruction of the code throws nothing but what the data memory throws.
  in_code_throws :
      (s : Interpreter) {fault : Fault}
      → s.pc < code_bytes program
      → Thrown program s fault
      → is_memory_fault fault ≡ true
  in_code_throws s here (off_code past) = absurd (omega arith)
  in_code_throws s here (undecoded e _ fails) =
      let (inst, decodes) = all s.pc here in absurd (ok-not-err (sym decodes ∙ fails))
  in_code_throws s here (no_access _ _ _ refuses) = Refuses-fault refuses

  -- A run of the interpreter that is not over after `k` steps, or has run out of the code.
  follow_limit :
      (left k : ℕ) (p : Pipeline) (s : Interpreter) (m : Matches program p s) (fault : Fault)
      → AreWords s.regs s.mem
      → s.pc < code_bytes program
      → Interpreter.run k program s ≡ err fault
      → Unfinished left k fault
      → run_loop left program p ≡ err cycle_limit
  unfolding run_loop Interpreter.run
  follow_limit zero k p s m fault words here h unfinished =
      if-false _ _ (fetching_busy p m.fetching)
  follow_limit (suc left) zero p s m fault words here h unfinished =
      absurd (Unfinished-zero unfinished (err-injective h))
  follow_limit (suc left) (suc k) p s m fault words here h unfinished =
      let (inst, decodes) = all s.pc here in
      elim (approach program all p s m inst here decodes) [
        | inl (a, _) ↦
            run_loop_step program left p a.next (fetching_busy p m.fetching) a.cycles
            ∙ follow_limit left (suc k) a.next s a.agrees fault words here h
                (Unfinished-suc unfinished)
        | inr (e, rest, acc) ↦ elim (run-Faults program k s fault h) [
          | goes s' stepped more ↦
              let w = step-Working program p s s' m e words stepped in
              elim (Bool-cases (ltb s'.pc (code_bytes program))) [
                | inl lt ↦
                    let a = retire program all p s s' w rest acc (ground arith) in
                    let words' =
                      Executes-AreWords (decode-IsDecoded _ e.fetched.decodes).imm_word words
                        w.executes in
                    run_loop_step program left p a.next (fetching_busy p m.fetching) a.cycles
                    ∙ follow_limit left k a.next s' a.agrees fault words' (ground arith) more
                        (Unfinished-pred unfinished)
                | inr ge ↦ leave program p s s' w (ground arith) all m.front rest left
              ]
          | throws thrown ↦ absurd (
              true-not-false (
                sym (in_code_throws s here (step-Thrown program s fault thrown))
                ∙ Unfinished-fault unfinished))
        ]
      ]

-- The pipeline does not end where the interpreter does not, from reset, with forwarding or without:
-- if every word of the program decodes, the program is separated or forwarding is on, and the
-- interpreter throws that its PC is past the end of the code, or that `max_steps` instructions were
-- not enough, then the pipeline throws that it has reached its cycle limit; in the second case for
-- a limit of at most `max_steps` cycles, in the first for every limit.
pub run-Unfinished :
    (program : Program) (bytes max_steps max_cycles : ℕ) (forwarding : Bool) (fault : Fault)
    → AllDecode program
    → Paced program forwarding
    → Interpreter.run max_steps program (new_interpreter bytes) ≡ err fault
    → Unfinished max_cycles max_steps fault
    → run max_cycles program (new_pipeline bytes forwarding) ≡ err cycle_limit
unfolding run new_pipeline new_interpreter access
run-Unfinished program bytes max_steps max_cycles forwarding fault all paced h unfinished =
    let (m, two) = new-Matches program bytes forwarding paced in
    ap (λ left. run_loop left program (new_pipeline bytes forwarding)) (sub-zero max_cycles)
    ∙ elim (Bool-cases (ltb 0 (code_bytes program))) [
      | inl lt ↦
          follow_limit program all max_cycles max_steps (new_pipeline bytes forwarding)
            (new_interpreter bytes) m fault (new_words bytes) (ground arith) h unfinished
      | inr ge ↦
          run_loop-past_end program max_cycles (new_pipeline bytes forwarding) _ empty_latch refl
            refl refl refl (ground arith)
    ]
