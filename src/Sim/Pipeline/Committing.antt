-- ===== src/Sim/Pipeline/Committing.antt =====
-- The hazard unit of src/sim/pipeline.cpp by cases: when a cycle stalls, and what a cycle that flows
-- commits.
use pipeline_lab.Prelude.{◌+◌, ◌≡◌, ◌∙◌, arith, Bool, true, false, if◌then◌else◌, if-true, if-false}
use pipeline_lab.Words.{u32}
use pipeline_lab.Sim.Pipeline.State.{Latch, empty_latch, Pipeline}
use pipeline_lab.Sim.Pipeline.Stages.{Execution, detect_stall}
use pipeline_lab.Sim.Pipeline.Cycle.{commit}

pub no_stall_ifid : (p : Pipeline) → p.ifid.bubble ≡ true → detect_stall p ≡ false
unfolding detect_stall
no_stall_ifid p h = if-true _ _ h

-- A stall is for a load.
pub stall_load :
    (p : Pipeline)
    → p.forwarding ≡ true
    → detect_stall p ≡ true
    → (p.ifid.bubble ≡ false) × (p.idex.bubble ≡ false) × (p.idex.ctrl.mem_read ≡ true)
unfolding detect_stall
stall_load p on h = ground arith

-- The commit of a cycle that flows, by what EX asks for.
pub commit_through :
    (fetches : Bool) (ex : Execution) (a b n : Latch) (r : Pipeline)
    → ex.flush_younger ≡ false
    → commit false fetches ex a b n r ≡ record r {
      ifid = a;
      idex = b;
      exmem = ex.next;
      memwb = n;
      pc = if fetches then u32 (r.pc + 4) else r.pc;
    }
unfolding commit
commit_through fetches ex a b n r h = if-false _ _ h

pub commit_flush :
    (fetches : Bool) (ex : Execution) (a b n : Latch) (r : Pipeline)
    → ex.flush_younger ≡ true
    → ex.stop_fetch ≡ false
    → ex.count_flush ≡ true
    → commit false fetches ex a b n r ≡ record r {
      ifid = empty_latch;
      idex = empty_latch;
      exmem = ex.next;
      memwb = n;
      pc = ex.new_pc;
      stats = record (r.stats) {
        flushes = r.stats.flushes + 1;
        flush_bubbles = r.stats.flush_bubbles + 2;
      };
    }
unfolding commit
commit_flush fetches ex a b n r h stop count = if-true _ _ h ∙ λ i. record r {
  ifid = empty_latch;
  idex = empty_latch;
  exmem = ex.next;
  memwb = n;
  fetch_stopped = if-false {b = ex.stop_fetch} true r.fetch_stopped stop i;
  pc = if-false {b = ex.stop_fetch} (if fetches then u32 (r.pc + 4) else r.pc) ex.new_pc stop i;
  stats =
      if-true {b = ex.count_flush}
        (record (r.stats) {
          flushes = r.stats.flushes + 1;
          flush_bubbles = r.stats.flush_bubbles + 2;
        })
        r.stats count i;
}

-- The commit after a RET in EX.
pub commit_stop :
    (fetches : Bool) (ex : Execution) (a b n : Latch) (r : Pipeline)
    → ex.flush_younger ≡ true
    → ex.stop_fetch ≡ true
    → ex.count_flush ≡ false
    → commit false fetches ex a b n r ≡ record r {
      ifid = empty_latch;
      idex = empty_latch;
      exmem = ex.next;
      memwb = n;
      fetch_stopped = true;
      pc = if fetches then u32 (r.pc + 4) else r.pc;
    }
unfolding commit
commit_stop fetches ex a b n r h stop count = if-true _ _ h ∙ λ i. record r {
  ifid = empty_latch;
  idex = empty_latch;
  exmem = ex.next;
  memwb = n;
  fetch_stopped = if-true {b = ex.stop_fetch} true r.fetch_stopped stop i;
  pc = if-true {b = ex.stop_fetch} (if fetches then u32 (r.pc + 4) else r.pc) ex.new_pc stop i;
  stats =
      if-false {b = ex.count_flush}
        (record (r.stats) {
          flushes = r.stats.flushes + 1;
          flush_bubbles = r.stats.flush_bubbles + 2;
        })
        r.stats count i;
}
