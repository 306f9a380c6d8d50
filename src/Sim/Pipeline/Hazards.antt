-- ===== src/Sim/Pipeline/Hazards.antt =====
-- The hazard unit of src/sim/pipeline.cpp: what a stalled cycle does, and when a stall and a flush
-- meet; and a pipeline whose PC has left the code.
use pipeline_lab.Prelude.{
  ℕ, zero, suc, ◌+◌, ◌≤◌, ◌≡◌, refl, sym, ap, ◌∙◌, arith, true, false, Result, ok, err, Bool-cases,
  inl, inr, ok-injective, if-false,
}
use pipeline_lab.Isa.Instruction.{Instruction}
use pipeline_lab.Asm.Program.{Program, code_bytes}
use pipeline_lab.Sim.Fault.{Fault, cycle_limit}
use pipeline_lab.Sim.Memory.{DataMemory}
use pipeline_lab.Sim.Pipeline.State.{
  Latch, empty_latch, Pipeline, PipelineStats, Control, make_control,
}
use pipeline_lab.Sim.Pipeline.Stages.{
  access, execute, execute_latch, quiet, detect_stall, write_back, record_stages, decode_stage,
}
use pipeline_lab.Sim.Pipeline.Cycle.{cycle, commit, run_loop}
use pipeline_lab.Sim.Pipeline.Stepping.{
  in_ex, cycle_stall, cycle_flow, execute_idle, execute_real, counted, decode_stage_idle,
  fetch_past_end, will_fetch,
}
use pipeline_lab.Sim.Pipeline.Committing.{no_stall_ifid, stall_load}
use pipeline_lab.Sim.Pipeline.Drain.{run_loop_step, fetching_busy}

-- EX changes no more of the pipeline than its counters.
pub execute-stats :
    (q : Pipeline)
    → (stats : PipelineStats) × ((execute q).0 ≡ record q { stats = stats })
      × (stats.cycles ≡ q.stats.cycles)
      × (stats.flushes ≡ q.stats.flushes)
      × (stats.stall_cycles ≡ q.stats.stall_cycles)
execute-stats q = elim (Bool-cases q.idex.bubble) [
  | inl idle ↦ (q.stats, ap (λ t. t.0) (execute_idle q idle), refl, refl, refl)
  | inr real ↦ ((counted q).stats, ap (λ t. t.0) (execute_real q real), refl, refl, refl)
]

-- A fault of the access in MEM is the cycle's.
pub cycle_faults :
    (program : Program) (p : Pipeline) (f : Fault)
    → access p.exmem p.mem ≡ err f
    → cycle program p ≡ err f
unfolding cycle
cycle_faults program p f accessed = rw accessed

-- A cycle that succeeds has accessed memory.
pub cycle_access :
    (program : Program) (p p' : Pipeline)
    → cycle program p ≡ ok p'
    → (mem : DataMemory) × (n : Latch) × (access p.exmem p.mem ≡ ok (mem, n))
cycle_access program p p' e = go (access p.exmem p.mem) refl
  where
    go :
        (r : Result Fault (DataMemory × Latch))
        → access p.exmem p.mem ≡ r
        → (mem : DataMemory) × (n : Latch) × (access p.exmem p.mem ≡ ok (mem, n))
    go (ok (mem, n)) accessed = (mem, n, accessed)
    go (err f) accessed = cc (cycle_faults program p f accessed)

-- A stalled cycle that does not throw holds the PC, the instruction in ID and the fetch, puts a
-- bubble into EX and counts a stall and no flush, whatever the instruction in EX asks for: a
-- branch, a jump or a RET there is lost.
pub cycle_stalled :
    (program : Program) (p p' : Pipeline)
    → detect_stall p ≡ true
    → cycle program p ≡ ok p'
    → (p'.pc ≡ p.pc)
      × (p'.ifid ≡ p.ifid)
      × (p'.idex ≡ empty_latch)
      × (p'.fetch_stopped ≡ p.fetch_stopped)
      × (p'.stats.flushes ≡ p.stats.flushes)
      × (p'.stats.stall_cycles ≡ p.stats.stall_cycles + 1)
unfolding commit write_back record_stages
cycle_stalled program p p' stall e =
    let (mem, n, accessed) = cycle_access program p p' e in
    let q = in_ex program p mem in
    let (stats, same, _, flushes, stalls) = execute-stats q in
    let exact =
      ok-injective
        (sym e ∙ cycle_stall program p mem n (execute q).0 (execute q).1 accessed refl stall) in
    let held =
      exact
      ∙ ap (λ r. commit true false (execute q).1 empty_latch (decode_stage (execute q).0) n r)
          same in
    (
      ap (λ t. t.pc) held,
      ap (λ t. t.ifid) held,
      ap (λ t. t.idex) held,
      ap (λ t. t.fetch_stopped) held,
      ap (λ t. t.stats.flushes) held ∙ flushes,
      ap (λ t. t.stats.stall_cycles) held ∙ ap (λ k. k + 1) stalls,
    )

-- A load is no jump, no branch and no RET.
abbrev Straight : Control → Type 0
Straight c = (c.is_ret ≡ false) × (c.is_jump ≡ false) × (c.is_branch ≡ false)

load_goes-Straight :
    (inst : Instruction) → (make_control inst).mem_read ≡ true → Straight (make_control inst)
unfolding make_control
load_goes-Straight inst h = ground arith

load_latch_quiet :
    (l : Latch) (a b : ℕ)
    → l.ctrl ≡ make_control l.inst
    → Straight (make_control l.inst)
    → (execute_latch l a b).flush_younger ≡ false
unfolding execute_latch
load_latch_quiet l a b control (r, j, t) =
    let r' : l.ctrl.is_ret ≡ false = rw control r in
    let j' : l.ctrl.is_jump ≡ false = rw control j in
    let t' : l.ctrl.is_branch ≡ false = rw control t in ground arith

-- With forwarding, and with the control signals in ID/EX those of its instruction, a cycle in which
-- EX flushes the younger instructions does not stall: what stalls is a load.
pub flush_excludes_stall :
    (p : Pipeline) (a b : ℕ)
    → p.forwarding ≡ true
    → p.idex.ctrl ≡ make_control p.idex.inst
    → (execute_latch p.idex a b).flush_younger ≡ true
    → detect_stall p ≡ false
flush_excludes_stall p a b on control flush = elim (Bool-cases (detect_stall p)) [
  | inl stall ↦
      let loads = ap (λ c. c.mem_read) (sym control) ∙ (stall_load p on stall).2 in
      let straight = load_goes-Straight p.idex.inst loads in
      let none_asked = load_latch_quiet p.idex a b control straight in cc
  | inr flow ↦ flow
]

cycle-past_end :
    (program : Program) (p : Pipeline) (mem : DataMemory) (n : Latch)
    → p.fetch_stopped ≡ false
    → p.ifid.bubble ≡ true
    → p.idex.bubble ≡ true
    → access p.exmem p.mem ≡ ok (mem, n)
    → code_bytes program ≤ p.pc
    → (p' : Pipeline) × (cycle program p ≡ ok p')
      × (p'.fetch_stopped ≡ false)
      × (p'.ifid.bubble ≡ true)
      × (p'.idex.bubble ≡ true)
      × (access p'.exmem p'.mem ≡ ok (p'.mem, empty_latch))
      × (code_bytes program ≤ p'.pc)
unfolding commit write_back record_stages access
cycle-past_end program p mem n on no_ifid no_idex accessed past =
    let q = in_ex program p mem in
    let fetches : will_fetch program p ≡ false = ground arith in
    (
      _,
      cycle_flow program p mem n empty_latch empty_latch q q (quiet empty_latch) false accessed
          (execute_idle q no_idex) (no_stall_ifid p no_ifid) fetches (decode_stage_idle q no_ifid)
          (fetch_past_end program q past),
      on,
      refl,
      refl,
      refl,
      past,
    )

-- With the PC past the end of the code, the fetch not stopped, IF/ID and ID/EX empty, and nothing in
-- EX/MEM that the data memory refuses, the loop never leaves: it runs into the cycle limit, whatever
-- the limit is.
pub run_loop-past_end :
    (program : Program) (left : ℕ) (p : Pipeline) (mem : DataMemory) (n : Latch)
    → p.fetch_stopped ≡ false
    → p.ifid.bubble ≡ true
    → p.idex.bubble ≡ true
    → access p.exmem p.mem ≡ ok (mem, n)
    → code_bytes program ≤ p.pc
    → run_loop left program p ≡ err cycle_limit
unfolding run_loop
run_loop-past_end program zero p mem n on no_ifid no_idex accessed past =
    if-false _ _ (fetching_busy p on)
run_loop-past_end program (suc left) p mem n on no_ifid no_idex accessed past =
    let (p', idles, on', no_ifid', no_idex', accessed', past') =
      cycle-past_end program p mem n on no_ifid no_idex accessed past in
    run_loop_step program left p p' (fetching_busy p on) idles
    ∙ run_loop-past_end program left p' p'.mem empty_latch on' no_ifid' no_idex' accessed' past'
