-- ===== src/Sim/Pipeline/Cycle.antt =====
-- `Pipeline::run` of src/sim/pipeline.cpp: one cycle, and the loop.
use pipeline_lab.Prelude.{
  ℕ, zero, suc, ◌+◌, ◌-◌, Bool, true, false, not, ◌&&◌, ltb, if◌then◌else◌, Result, ok, err, ◌>>=◌,
}
use pipeline_lab.Prelude.Int.{pos, negsuc}
use pipeline_lab.Words.{u32}
use pipeline_lab.Asm.Program.{Program, instruction_bytes, code_bytes}
use pipeline_lab.Sim.Fault.{Fault, cycle_limit}
use pipeline_lab.Sim.Pipeline.State.{Latch, empty_latch, Pipeline}
use pipeline_lab.Sim.Pipeline.Stages.{
  detect_stall, write_back, memory_stage, Execution, execute, decode_stage, fetch_into,
  record_stages,
}

-- Nothing is left to fetch and every stage is empty.
unfoldable pub drained : Pipeline → Bool
drained p = p.fetch_stopped && p.ifid.bubble && p.idex.bubble && p.exmem.bubble && p.memwb.bubble

-- The end of a cycle: the hazard unit's decision on the new latches and the PC, and the commit of
-- the latches.
unfoldable pub commit : Bool → Bool → Execution → Latch → Latch → Latch → Pipeline → Pipeline
commit true will_fetch ex n_ifid n_idex n_memwb p = record p {
  stats = record (p.stats) { stall_cycles = p.stats.stall_cycles + 1 };
  ifid = p.ifid;
  idex = empty_latch;
  exmem = ex.next;
  memwb = n_memwb;
}
commit false will_fetch ex n_ifid n_idex n_memwb p =
    let next_pc = if will_fetch then u32 (p.pc + instruction_bytes) else p.pc in
    if ex.flush_younger
    then record p {
      ifid = empty_latch;
      idex = empty_latch;
      exmem = ex.next;
      memwb = n_memwb;
      fetch_stopped = if ex.stop_fetch then true else p.fetch_stopped;
      pc = if ex.stop_fetch then next_pc else ex.new_pc;
      stats =
          if ex.count_flush
          then record (p.stats) {
            flushes = p.stats.flushes + 1;
            flush_bubbles = p.stats.flush_bubbles + 2;
          }
          else p.stats;
    }
    else record p { ifid = n_ifid; idex = n_idex; exmem = ex.next; memwb = n_memwb; pc = next_pc }

unfoldable pub cycle : Program → Pipeline → Result Fault Pipeline
unfolding record_stages write_back memory_stage commit
cycle program p =
    let stall = detect_stall p in
    let will_fetch = not stall && not p.fetch_stopped && ltb p.pc (code_bytes program) in
    let fetch_id = if will_fetch then pos p.next_id else negsuc 0 in
    let started = record p {
      cycle = p.cycle + 1;
      stats = record (p.stats) { cycles = p.cycle + 1 };
    } in
    do
      (p', n_memwb) ← memory_stage (write_back (record_stages will_fetch fetch_id started))
      let (p'', ex) = execute p'
      let n_idex = decode_stage p''
      (p''', n_ifid) ← if stall then ok (p'', empty_latch) else fetch_into program p''
      ok (commit stall will_fetch ex n_ifid n_idex n_memwb p''')

-- The loop, by the cycles that are left below the limit.
unfoldable pub run_loop : ℕ → Program → Pipeline → Result Fault Pipeline
run_loop zero program p = if drained p then ok p else err cycle_limit
run_loop (suc left) program p =
    let next = cycle program p >>= run_loop left program in if drained p then ok p else next

unfoldable pub run : ℕ → Program → Pipeline → Result Fault Pipeline
unfolding run_loop
run max_cycles program p = run_loop (max_cycles - p.cycle) program p
