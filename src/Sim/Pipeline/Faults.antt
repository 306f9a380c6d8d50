-- ===== src/Sim/Pipeline/Faults.antt =====
-- The exceptions of the data memory in `Pipeline::run`, src/sim/pipeline.cpp, beside those of
-- `Interpreter::run`, src/sim/interpreter.cpp.
use pipeline_lab.Prelude.{
  ℕ, zero, suc, ◌+◌, ◌-◌, ◌*◌, ◌≤◌, ◌≡◌, refl, sym, ap, ◌∙◌, arith, Bool, Bool-cases, inl, inr,
  true, false, ok, err, if-false, ok-injective,
}
use mathlib.Core.Path.{subst}
use pipeline_lab.Isa.Encoding.Decoding.{IsDecoded, decode-IsDecoded}
use pipeline_lab.Asm.Program.{Program}
use pipeline_lab.Sim.Fault.{Fault}
use pipeline_lab.Sim.RegisterFile.{read}
use pipeline_lab.Sim.Memory.{DataMemory}
use pipeline_lab.Sim.Bounds.{AreWords, read-IsWord, Executes-AreWords}
use pipeline_lab.Sim.Interpreter
use pipeline_lab.Sim.Interpreter.{Interpreter, new_interpreter}
use pipeline_lab.Sim.Interpreter.Thrown.{
  is_memory_fault, Refuses, refused_load, refused_store, step-Refuses,
}
use pipeline_lab.Sim.Interpreter.Faults.{goes, throws, run-Faults, run_faults_in_code}
use pipeline_lab.Sim.Pipeline.State.{Latch, Pipeline, make_control, new_pipeline}
use pipeline_lab.Sim.Pipeline.Stages.{
  access, detect_stall, Execution, execute_latch, port, write_back, record_stages, decode_stage,
}
use pipeline_lab.Sim.Pipeline.Cycle.{commit, run_loop, run}
use pipeline_lab.Sim.Pipeline.Execution.{decoded_latch, port-read, address_same}
use pipeline_lab.Sim.Pipeline.Stepping.{in_ex, cycle_flow, cycle_stall, will_fetch, counted}
use pipeline_lab.Sim.Pipeline.Committing.{commit_through}
use pipeline_lab.Sim.Pipeline.Fetching.{AllDecode, fetch_some}
use pipeline_lab.Sim.Pipeline.Refinement.{patience, Matches, Paced, Entered}
use pipeline_lab.Sim.Pipeline.Working.{counting, outcome, executed, idex_latch, ex_a_lem, ex_b_lem}
use pipeline_lab.Sim.Pipeline.Drain.{run_loop_step, fetching_busy}
use pipeline_lab.Sim.Pipeline.Progress.{approach, step-Working, retire, new-Matches, new_words}
use pipeline_lab.Sim.Pipeline.Hazards.{cycle_faults}
use pipeline_lab.Sim.Pipeline.Correct.{sub-zero}

-- EX lets the younger instructions be, and MEM throws on what it sends on.
pub record Throws (ex : Execution) (mem : DataMemory) (fault : Fault) : Type 0 where
  pub through : ex.flush_younger ≡ false
  pub refused : access ex.next mem ≡ err fault

execute_latch-Throws :
    (l : Latch) (s : Interpreter) {fault : Fault}
    → IsDecoded l.inst
    → AreWords s.regs s.mem
    → Refuses l.inst s fault
    → Throws
        (execute_latch
          (decoded_latch l s)
          (port s.regs (make_control l.inst).a_reg)
          (port s.regs (make_control l.inst).b_reg))
        s.mem
        fault
unfolding execute_latch make_control access
execute_latch-Throws l s d w (refused_load f n e) =
    rw
      (
        f,
        n,
        port-read s.regs l.inst.rs d.rs_small,
        address_same (read s.regs l.inst.rs) l.inst.imm (read-IsWord s.regs l.inst.rs w.regs_words)
            d.imm_word,
      )
      (record { through = refl; refused = rw e })
execute_latch-Throws l s d w (refused_store f n t e) =
    rw
      (
        f,
        n,
        t,
        port-read s.regs l.inst.rs d.rs_small,
        port-read s.regs l.inst.rd d.rd_small,
        address_same (read s.regs l.inst.rs) l.inst.imm (read-IsWord s.regs l.inst.rs w.regs_words)
            d.imm_word,
      )
      (record { through = refl; refused = rw e })

run_loop_throws :
    (program : Program) (left : ℕ) (p : Pipeline) (fault : Fault)
    → p.fetch_stopped ≡ false
    → access p.exmem p.mem ≡ err fault
    → run_loop (suc left) program p ≡ err fault
unfolding run_loop
run_loop_throws program left p fault on refused =
    if-false _ _ (fetching_busy p on) ∙ rw (cycle_faults program p fault refused)

module _ (program : Program) (p : Pipeline) (s : Interpreter) (m : Matches program p s)
    (e : Entered program p s.pc) {fault : Fault} where
  entered-Throws :
      AreWords s.regs s.mem
      → Refuses p.idex.inst (counting s) fault
      → Throws (outcome p) s.mem fault
  entered-Throws words refuses =
      subst (λ (t : Latch × ℕ × ℕ). Throws (execute_latch t.0 t.1 t.2) s.mem fault)
        (λ i. (
          idex_latch program p s m.paced m.behind e i,
          ex_a_lem program p s m.paced m.behind e i,
          ex_b_lem program p s m.paced m.behind e i,
        ))
        (execute_latch-Throws p.idex (counting s) (decode-IsDecoded _ e.fetched.decodes) words
          refuses)

  -- A refused load or store in EX is in MEM a cycle later.
  Throws-in_two :
      AllDecode program
      → Throws (outcome p) s.mem fault
      → (left : ℕ) → run_loop (suc (suc left)) program p ≡ err fault
  unfolding write_back record_stages commit
  Throws-in_two all thrown left =
      let q = counted (in_ex program p s.mem) in
      let ex = outcome p in
      let done = executed program p s e.fetched.real in
      elim (Bool-cases (detect_stall p)) [
        | inl stall ↦
            run_loop_step program (suc left) p _ (fetching_busy p m.fetching)
              (cycle_stall program p s.mem m.behind.done q ex m.behind.accessed done stall)
            ∙ run_loop_throws program left _ fault m.fetching thrown.refused
        | inr flow ↦
            let (traced, next_id, l, fetch_eq) = fetch_some program q all m.fetching in
            run_loop_step program (suc left) p _ (fetching_busy p m.fetching) (
              cycle_flow program p s.mem m.behind.done (decode_stage q) l q _ ex
                (will_fetch program p) m.behind.accessed done flow refl refl fetch_eq
              ∙ ap ok (
                  commit_through (will_fetch program p) ex l (decode_stage q) m.behind.done
                    (record q { traced = traced; next_id = next_id }) thrown.through))
            ∙ run_loop_throws program left _ fault m.fetching thrown.refused
      ]

module _ (program : Program) (all : AllDecode program) (fault : Fault)
    (memory : is_memory_fault fault ≡ true) where
  -- A run of the interpreter that throws within `k` steps is followed by the pipeline in at most
  -- three cycles for each step.
  follow_fault :
      (left k : ℕ) (p : Pipeline) (s : Interpreter) (m : Matches program p s)
      → AreWords s.regs s.mem
      → Interpreter.run k program s ≡ err fault
      → patience m.front + 3 * k ≤ left
      → run_loop left program p ≡ err fault
  follow_fault left zero p s m words h enough =
      let (j, same, _, _, _) = run_faults_in_code program zero s fault memory h in
      absurd (omega arith)
  follow_fault zero (suc k) p s m words h enough = absurd (omega arith)
  follow_fault (suc left) (suc k) p s m words h enough =
      let (_, _, inst, in_code, decodes) = run_faults_in_code program (suc k) s fault memory h in
      elim (approach program all p s m inst in_code decodes) [
        | inl (a, waiting) ↦
            run_loop_step program left p a.next (fetching_busy p m.fetching) a.cycles
            ∙ follow_fault left (suc k) a.next s a.agrees words h (omega (arith, a.waits))
        | inr (e, rest, acc) ↦ elim (run-Faults program k s fault h) [
          | goes s' stepped more ↦
              let w = step-Working program p s s' m e words stepped in
              let (_, _, _, next_in_code, _) = run_faults_in_code program k s' fault memory more in
              let a = retire program all p s s' w rest acc next_in_code in
              let words' =
                Executes-AreWords (decode-IsDecoded _ e.fetched.decodes).imm_word words
                  w.executes in
              run_loop_step program left p a.next (fetching_busy p m.fetching) a.cycles
              ∙ follow_fault left k a.next s' a.agrees words' more (omega (arith, a.waits))
          | throws thrown ↦
              let (found, _, found_decodes, refuses) = step-Refuses program s fault memory thrown in
              let same = ok-injective (sym found_decodes ∙ e.fetched.decodes) in
              let enough_left : suc (suc (left - 1)) ≡ suc left = omega arith in
              ap (λ l. run_loop l program p) (sym enough_left)
              ∙ Throws-in_two program p s m e all
                  (entered-Throws program p s m e words
                    (subst (λ i. Refuses i (counting s) fault) same refuses))
                  (left - 1)
        ]
      ]

-- The pipeline throws what the interpreter throws at the data memory, from reset, with forwarding
-- or without: if every word of the program decodes, the program is separated or forwarding is on,
-- and the interpreter throws a fault of the data memory (an unaligned address, an address out of
-- bounds, or an index past the end of the storage) within `max_steps` instructions, then the
-- pipeline throws the same fault, at the same address, within any limit of at least three cycles
-- for each of these and two more.
pub run_throws :
    (program : Program) (bytes max_steps max_cycles : ℕ) (forwarding : Bool) (fault : Fault)
    → is_memory_fault fault ≡ true
    → AllDecode program
    → Paced program forwarding
    → Interpreter.run max_steps program (new_interpreter bytes) ≡ err fault
    → 3 * max_steps + 2 ≤ max_cycles
    → run max_cycles program (new_pipeline bytes forwarding) ≡ err fault
unfolding run new_pipeline
run_throws program bytes max_steps max_cycles forwarding fault memory all paced h enough =
    let (m, two) = new-Matches program bytes forwarding paced in
    ap (λ left. run_loop left program (new_pipeline bytes forwarding)) (sub-zero max_cycles)
    ∙ follow_fault program all fault memory max_cycles max_steps (new_pipeline bytes forwarding)
        (new_interpreter bytes) m (new_words bytes) h (omega arith)
