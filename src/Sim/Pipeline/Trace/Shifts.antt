-- ===== src/Sim/Pipeline/Trace/Shifts.antt =====
-- What one cycle of src/sim/pipeline.cpp does to the trace and to the ids in the latches.
use pipeline_lab.Prelude.{
  true-not-false, ◌+◌, ◌≡◌, refl, sym, ap, ◌∙◌, ◌⊎◌, inl, inr, arith, [], ◌∷◌, ◌++◌, length,
  length-append, Bool, true, false, if◌then◌else◌, if-true, if-false, Bool-cases, ok, ok-injective,
}
use mathlib.Core.Path.{subst}
use pipeline_lab.Prelude.Int.{pos}
use pipeline_lab.Asm.Program.{Program}
use pipeline_lab.Sim.Pipeline.State.{Latch, empty_latch, Pipeline, TracedInstr}
use pipeline_lab.Sim.Pipeline.Stages.{Execution, detect_stall, decode_stage}
use pipeline_lab.Sim.Pipeline.Cycle.{cycle, commit}
use pipeline_lab.Sim.Pipeline.Stepping.{will_fetch}
use pipeline_lab.Sim.Pipeline.Trace.Held.{
  Holds, access-Holds, decode_stage-Holds, shut, Fetches, nothing, fetched, fetch_into-Fetches,
}
use pipeline_lab.Sim.Pipeline.Trace.Parts.{Parts, cycle-Parts}
use pipeline_lab.Sim.Pipeline.Trace.Worked.{new_events, Worked, execute-Worked}

-- The latch holds what IF has fetched, or what the latch before IF/ID held, if that stays.
abbrev pub HoldsNext : Pipeline → Pipeline → Bool → Type 0
HoldsNext p p' fetching =
    p'.ifid.bubble ≡ false
    → ((fetching ≡ true) × (p'.ifid.id ≡ pos p.next_id))
      ⊎ ((p'.idex.bubble ≡ true) × (p.ifid.bubble ≡ false) × (p'.ifid.id ≡ p.ifid.id))

pub record Shifts (p p' : Pipeline) : Type 0 where
  pub fetching : Bool
  pub clock : p'.cycle ≡ p.cycle + 1
  pub report : p'.stats.cycles ≡ p.cycle + 1
  pub next : p'.next_id ≡ (if fetching then p.next_id + 1 else p.next_id)
  pub entries : length p'.traced ≡ (if fetching then length p.traced + 1 else length p.traced)
  pub events : p'.trace ≡ p.trace ++ new_events p fetching
  pub to_wb : Holds p.exmem p'.memwb
  pub to_mem : Holds p.idex p'.exmem
  pub to_ex : Holds p.ifid p'.idex
  pub to_id : HoldsNext p p' fetching

-- The commit of a cycle that flows.
commit-kept :
    (fetches : Bool) (ex : Execution) (a b n : Latch) (r c : Pipeline)
    → c ≡ commit false fetches ex a b n r
    → (c.cycle ≡ r.cycle)
      × (c.stats.cycles ≡ r.stats.cycles)
      × (c.next_id ≡ r.next_id)
      × (c.traced ≡ r.traced)
      × (c.trace ≡ r.trace)
      × (c.memwb ≡ n)
      × (c.exmem ≡ ex.next)
unfolding commit
commit-kept fetches ex a b n r c e = ground arith

commit-latches :
    (fetches : Bool) (ex : Execution) (a b n : Latch) (r c : Pipeline)
    → c ≡ commit false fetches ex a b n r
    → (c.ifid.bubble ≡ false → c.ifid ≡ a) × (c.idex.bubble ≡ false → c.idex ≡ b)
unfolding commit
commit-latches fetches ex a b n r c e = ground arith

stalled-Shifts :
    (program : Program) (p p' : Pipeline) (parts : Parts program p p')
    → detect_stall p ≡ true
    → Shifts p p'
unfolding commit
stalled-Shifts program p p' parts stall =
    let (w, held) = execute-Worked program p parts.q parts.mem parts.ex parts.executed in
    let none_fetched : will_fetch program p ≡ false = ground arith in
    let same = ap (λ t. t.0) (ok-injective (sym (if-true _ _ stall) ∙ parts.fetches)) in
    let shape = parts.committed ∙ λ i.
    commit (stall i) (none_fetched i) parts.ex parts.n_ifid (decode_stage parts.q) parts.n_memwb
      (sym same i) in
    record {
      fetching = false;
      clock = ap (λ t. t.cycle) shape ∙ w.clock;
      report = ap (λ t. t.stats.cycles) shape ∙ w.report;
      next = ap (λ t. t.next_id) shape ∙ w.next;
      entries = ap (λ t. length t.traced) shape ∙ ap length w.traced;
      events = ap (λ t. t.trace) shape ∙ w.trace ∙ ap (λ f. p.trace ++ new_events p f) none_fetched;
      to_wb =
          subst (Holds p.exmem) (sym (ap (λ t. t.memwb) shape))
            (access-Holds p.exmem p.mem parts.mem parts.n_memwb parts.accessed);
      to_mem = subst (Holds p.idex) (sym (ap (λ t. t.exmem) shape)) held;
      to_ex = λ live. absurd (true-not-false (sym (ap (λ t. t.idex.bubble) shape) ∙ live));
      to_id =
          let kept = ap (λ t. t.ifid) shape ∙ w.ifid in
          λ live. inr (
            ap (λ t. t.idex.bubble) shape,
            sym (ap (λ l. l.bubble) kept) ∙ live,
            ap (λ l. l.id) kept,
          );
    }

shut_fetches :
    (program : Program) (p : Pipeline)
    → detect_stall p ≡ false
    → shut program p ≡ true
    → will_fetch program p ≡ false
shut_fetches program p flow off = ground arith

open_fetches :
    (program : Program) (p : Pipeline)
    → detect_stall p ≡ false
    → shut program p ≡ false
    → will_fetch program p ≡ true
open_fetches program p flow on = ground arith

-- A cycle that flows.
module _ (program : Program) (p p' : Pipeline) (parts : Parts program p p')
    (flow : detect_stall p ≡ false) where
  w : Worked program p parts.q
  w = (execute-Worked program p parts.q parts.mem parts.ex parts.executed).0

  held : Holds p.idex parts.ex.next
  held = (execute-Worked program p parts.q parts.mem parts.ex parts.executed).1

  shape :
      p'
      ≡ commit false
          (will_fetch program p)
          parts.ex
          parts.n_ifid
          (decode_stage parts.q)
          parts.n_memwb
          parts.r
  shape = parts.committed ∙ λ i.
      commit (flow i) (will_fetch program p) parts.ex parts.n_ifid (decode_stage parts.q)
        parts.n_memwb parts.r

  kept :
      (p'.cycle ≡ parts.r.cycle)
      × (p'.stats.cycles ≡ parts.r.stats.cycles)
      × (p'.next_id ≡ parts.r.next_id)
      × (p'.traced ≡ parts.r.traced)
      × (p'.trace ≡ parts.r.trace)
      × (p'.memwb ≡ parts.n_memwb)
      × (p'.exmem ≡ parts.ex.next)
  kept = commit-kept _ _ _ _ _ _ _ shape

  to_wb : Holds p.exmem p'.memwb
  to_wb =
      subst (Holds p.exmem) (sym kept.5)
        (access-Holds p.exmem p.mem parts.mem parts.n_memwb parts.accessed)

  to_mem : Holds p.idex p'.exmem
  to_mem = subst (Holds p.idex) (sym kept.6) held

  to_ex : Holds p.ifid p'.idex
  to_ex live =
      let same = (commit-latches _ _ _ _ _ _ _ shape).1 live in
      let (real, id) = decode_stage-Holds parts.q (sym (ap (λ l. l.bubble) same) ∙ live) in
      (sym (ap (λ l. l.bubble) w.ifid) ∙ real, ap (λ l. l.id) same ∙ id ∙ ap (λ l. l.id) w.ifid)

  nothing-Shifts :
      shut program parts.q ≡ true → parts.r ≡ parts.q → parts.n_ifid ≡ empty_latch → Shifts p p'
  nothing-Shifts off same none = record {
    fetching = false;
    clock = kept.0 ∙ ap (λ t. t.cycle) same ∙ w.clock;
    report = kept.1 ∙ ap (λ t. t.stats.cycles) same ∙ w.report;
    next = kept.2 ∙ ap (λ t. t.next_id) same ∙ w.next;
    entries = ap length (kept.3 ∙ ap (λ t. t.traced) same ∙ w.traced);
    events =
        kept.4
        ∙ ap (λ t. t.trace) same
        ∙ w.trace
        ∙ ap (λ f. p.trace ++ new_events p f) (shut_fetches program p flow (sym w.open_now ∙ off));
    to_wb = to_wb;
    to_mem = to_mem;
    to_ex = to_ex;
    to_id = λ live. absurd (
        true-not-false
          (sym (ap (λ l. l.bubble) ((commit-latches _ _ _ _ _ _ _ shape).0 live ∙ none)) ∙ live));
  }

  fetched-Shifts :
      (t : TracedInstr)
      → shut program parts.q ≡ false
      → parts.r
        ≡ record (parts.q) { traced = parts.q.traced ++ t ∷ []; next_id = parts.q.next_id + 1 }
      → parts.n_ifid.id ≡ pos parts.q.next_id
      → Shifts p p'
  fetched-Shifts t on same id = record {
    fetching = true;
    clock = kept.0 ∙ ap (λ t. t.cycle) same ∙ w.clock;
    report = kept.1 ∙ ap (λ t. t.stats.cycles) same ∙ w.report;
    next = kept.2 ∙ ap (λ t. t.next_id) same ∙ ap (λ n. n + 1) w.next;
    entries =
        ap length (kept.3 ∙ ap (λ t. t.traced) same)
        ∙ length-append parts.q.traced (t ∷ [])
        ∙ ap (λ l. length l + 1) w.traced;
    events =
        kept.4
        ∙ ap (λ t. t.trace) same
        ∙ w.trace
        ∙ ap (λ f. p.trace ++ new_events p f) (open_fetches program p flow (sym w.open_now ∙ on));
    to_wb = to_wb;
    to_mem = to_mem;
    to_ex = to_ex;
    to_id = λ live.
        inl
          (refl, ap (λ l. l.id) ((commit-latches _ _ _ _ _ _ _ shape).0 live) ∙ id ∙ ap pos w.next);
  }

  flowing-Shifts : Shifts p p'
  flowing-Shifts = go (
      fetch_into-Fetches program parts.q parts.r parts.n_ifid
        (sym (if-false _ _ flow) ∙ parts.fetches))
    where
      go : Fetches program parts.q parts.r parts.n_ifid → Shifts p p'
      go (nothing off same none) = nothing-Shifts off same none
      go (fetched t on same id) = fetched-Shifts t on same id

-- What a cycle that does not throw does to the trace.
pub cycle-Shifts : (program : Program) (p p' : Pipeline) → cycle program p ≡ ok p' → Shifts p p'
cycle-Shifts program p p' e =
    let parts = cycle-Parts program p p' e in
    elim (Bool-cases (detect_stall p)) [
      | inl stall ↦ stalled-Shifts program p p' parts stall
      | inr flow ↦ flowing-Shifts program p p' parts flow
    ]
