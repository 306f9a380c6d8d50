-- ===== src/Sim/Pipeline/Finish.antt =====
-- From a RET in EX to the end of `Pipeline::run`, src/sim/pipeline.cpp.
use pipeline_lab.Prelude.{ℕ, suc, ◌+◌, ◌*◌, ◌≡◌, refl, ap, ◌∙◌, arith, true, false, ◌&&◌, ok}
use mathlib.Core.Path.{subst}
use pipeline_lab.Isa.Opcode.{format_of, j_type, is_ret}
use pipeline_lab.Asm.Program.{Program}
use pipeline_lab.Sim.Interpreter.{Interpreter}
use pipeline_lab.Sim.Pipeline.State.{empty_latch, Pipeline}
use pipeline_lab.Sim.Pipeline.Stages.{
  access, written, execute_latch, write_back, record_stages, decode_stage,
}
use pipeline_lab.Sim.Pipeline.Cycle.{cycle, drained, run_loop}
use pipeline_lab.Sim.Pipeline.Stepping.{in_ex, cycle_flow, will_fetch, counted}
use pipeline_lab.Sim.Pipeline.Committing.{commit_stop}
use pipeline_lab.Sim.Pipeline.Fetching.{AllDecode, fetch_some}
use pipeline_lab.Sim.Pipeline.Refinement.{Entered, Behind, Accounts, Paced, Rest}
use pipeline_lab.Sim.Pipeline.Working.{
  counting, outcome, executed, idex_latch, flush_flows, ex_a, ex_b,
}
use pipeline_lab.Sim.Pipeline.Drain.{
  run_loop_step, run_loop-drained, fetching_busy, Stops, execute_latch-Stops, drain_cycle,
}

-- The pipeline ends within `left` cycles with the registers, the memory and the instruction count
-- of `s`, and its cycles are accounted for.
pub record Halts (program : Program) (left : ℕ) (p : Pipeline) (s : Interpreter) : Type 0 where
  pub final : Pipeline
  pub ends : run_loop left program p ≡ ok final
  pub registers : final.regs ≡ s.regs
  pub memory : final.mem ≡ s.mem
  pub retired : final.stats.retired ≡ s.retired
  pub cycle_account :
      final.stats.cycles
      ≡ final.stats.retired + final.stats.stall_cycles + final.stats.flush_bubbles + 4
  pub flush_account : final.stats.flush_bubbles ≡ 2 * final.stats.flushes

pub Halts-step :
    (program : Program) (left : ℕ) (p p' : Pipeline) (s : Interpreter)
    → p.fetch_stopped ≡ false
    → cycle program p ≡ ok p'
    → Halts program left p' s
    → Halts program (suc left) p s
Halts-step program left p p' s on e h = record {
  final = h.final;
  ends = run_loop_step program left p p' (fetching_busy p on) e ∙ h.ends;
  registers = h.registers;
  memory = h.memory;
  retired = h.retired;
  cycle_account = h.cycle_account;
  flush_account = h.flush_account;
}

module _ (program : Program) (p : Pipeline) (s : Interpreter) (paced : Paced program p.forwarding)
    (fetching : p.fetch_stopped ≡ false) (b : Behind p s) (e : Entered program p s.pc)
    (f : format_of p.idex.inst.op ≡ j_type) (r : is_ret p.idex.inst.op ≡ true) where
  stopping : Stops (outcome p)
  stopping =
      subst (λ l. Stops (execute_latch l (ex_a p) (ex_b p))) (idex_latch program p s paced b e)
        (execute_latch-Stops p.idex s _ _ f r)

  pub finish :
      (left : ℕ)
      → AllDecode program
      → Rest program p s.pc
      → Accounts p 0
      → Halts program (suc (suc (suc left))) p (counting s)
  unfolding write_back record_stages drained access
  finish left all rest acc =
      let q = counted (in_ex program p s.mem) in
      let ex = outcome p in
      let flow = flush_flows program p s paced b e rest stopping.flushes in
      let (traced, next_id, l, fetch_eq) = fetch_some program q all fetching in
      let first =
        cycle_flow program p s.mem b.done (decode_stage q) l q _ ex (will_fetch program p)
          b.accessed (executed program p s e.fetched.real) flow refl refl fetch_eq
        ∙ ap ok (commit_stop _ ex _ _ _ _ stopping.flushes stopping.stops stopping.uncounted) in
      let (n, accessed, live, keeps) = stopping.idle_memory s.mem in
      let (_, second) = drain_cycle program _ s.mem n refl refl refl accessed in
      let (_, third) = drain_cycle program _ s.mem empty_latch refl refl refl refl in
      record {
        final = _;
        ends =
            run_loop_step program (suc (suc left)) p _ (fetching_busy p fetching) first
            ∙ run_loop_step program (suc left) _ _ (ap (λ t. t && b.done.bubble) stopping.live)
                second
            ∙ run_loop_step program left _ _ live third
            ∙ run_loop-drained program left _ refl;
        registers = ap (written n) b.written_back ∙ keeps s.regs;
        memory = refl;
        retired = ap (λ t. t + 1) b.retired;
        cycle_account = omega arith;
        flush_account = omega arith;
      }
