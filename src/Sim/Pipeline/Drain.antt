-- ===== src/Sim/Pipeline/Drain.antt =====
-- The end of a run of src/sim/pipeline.cpp: a RET in EX stops the fetch, and the pipeline drains in
-- two more cycles.
use pipeline_lab.Prelude.{
  ℕ, zero, suc, ◌+◌, ◌≡◌, refl, ◌∙◌, arith, true, false, ok, if-true, if-false, List,
}
use pipeline_lab.Isa.Opcode.{format_of, j_type, is_ret}
use pipeline_lab.Asm.Program.{Program}
use pipeline_lab.Sim.RegisterFile.{RegisterFile}
use pipeline_lab.Sim.Memory.{DataMemory}
use pipeline_lab.Sim.Interpreter.{Interpreter}
use pipeline_lab.Sim.Pipeline.State.{Latch, empty_latch, Pipeline, TraceEvent, make_control}
use pipeline_lab.Sim.Pipeline.Stages.{
  access, written, execute_latch, Execution, quiet, write_back, record_stages, fetch_into,
}
use pipeline_lab.Sim.Pipeline.Cycle.{cycle, commit, drained, run_loop}
use pipeline_lab.Sim.Pipeline.Execution.{decoded_latch}
use pipeline_lab.Sim.Pipeline.Stepping.{
  in_ex, cycle_flow, execute_idle, decode_stage_idle, will_fetch, fetch_off,
}
use pipeline_lab.Sim.Pipeline.Committing.{no_stall_ifid}

-- A cycle of a pipeline that is not drained.
pub run_loop_step :
    (program : Program) (left : ℕ) (p p' : Pipeline)
    → drained p ≡ false
    → cycle program p ≡ ok p'
    → run_loop (suc left) program p ≡ run_loop left program p'
unfolding run_loop
run_loop_step program left p p' busy e = if-false _ _ busy ∙ rw e

pub run_loop-drained :
    (program : Program) (left : ℕ) (p : Pipeline)
    → drained p ≡ true
    → run_loop left program p ≡ ok p
unfolding run_loop
run_loop-drained program zero p h = if-true _ _ h
run_loop-drained program (suc left) p h = if-true _ _ h

pub fetching_busy : (p : Pipeline) → p.fetch_stopped ≡ false → drained p ≡ false
unfolding drained
fetching_busy p h = ground arith

-- The latch of a RET in EX.
pub record Stops (ex : Execution) : Type 0 where
  pub flushes : ex.flush_younger ≡ true
  pub stops : ex.stop_fetch ≡ true
  pub uncounted : ex.count_flush ≡ false
  pub live : ex.next.bubble ≡ false
  pub idle_memory :
      (mem : DataMemory)
      → (n : Latch) × (access ex.next mem ≡ ok (mem, n))
        × (n.bubble ≡ false)
        × ((r : RegisterFile) → written n r ≡ r)

pub execute_latch-Stops :
    (l : Latch) (s : Interpreter) (a b : ℕ)
    → format_of l.inst.op ≡ j_type
    → is_ret l.inst.op ≡ true
    → Stops (execute_latch (decoded_latch l s) a b)
unfolding execute_latch make_control access written
execute_latch-Stops l s a b f r =
    rw (f, r)
      (record {
        flushes = refl;
        stops = refl;
        uncounted = refl;
        live = refl;
        idle_memory = λ mem. (_, refl, refl, λ r'. refl);
      })

-- A cycle with nothing in front of MEM and the fetch stopped.
pub drain_cycle :
    (program : Program) (p : Pipeline) (mem : DataMemory) (n : Latch)
    → p.fetch_stopped ≡ true
    → p.ifid.bubble ≡ true
    → p.idex.bubble ≡ true
    → access p.exmem p.mem ≡ ok (mem, n)
    → (trace : List TraceEvent) × (cycle program p
        ≡ ok (record p {
          regs = written p.memwb p.regs;
          mem = mem;
          ifid = empty_latch;
          idex = empty_latch;
          exmem = empty_latch;
          memwb = n;
          cycle = p.cycle + 1;
          stats = record (p.stats) { cycles = p.cycle + 1 };
          trace = trace;
        }))
unfolding commit write_back record_stages
drain_cycle program p mem n stopped no_ifid no_idex accessed =
    let q = in_ex program p mem in
    let fetches : will_fetch program p ≡ false = ground arith in
    let no_fetch : fetch_into program q ≡ ok (q, empty_latch) = fetch_off program q stopped in
    (
      _,
      cycle_flow program p mem n empty_latch empty_latch q q (quiet empty_latch) false accessed
          (execute_idle q no_idex) (no_stall_ifid p no_ifid) fetches (decode_stage_idle q no_ifid)
          no_fetch,
    )
