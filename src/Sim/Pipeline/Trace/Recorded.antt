-- ===== src/Sim/Pipeline/Trace/Recorded.antt =====
-- What the trace of src/sim/pipeline.cpp keeps between two cycles.
use pipeline_lab.Prelude.{
  true-not-false, ℕ, zero, suc, ◌+◌, ◌-◌, ◌≤◌, ◌≡◌, refl, sym, ap, ◌∙◌, inl, inr, arith, List, ◌++◌,
  length, All, All-append, All-weaken, Bool, true, false, if◌then◌else◌, ok, Bool-cases, if-true,
  if-false, ok-injective, Result, err, >>=-eq-ok,
}
use mathlib.Core.Path.{subst}
use pipeline_lab.Prelude.Int.{pos}
use pipeline_lab.Asm.Program.{Program}
use pipeline_lab.Sim.Fault.{Fault}
use pipeline_lab.Sim.Pipeline.State.{
  Latch, Pipeline, TraceEvent, new_pipeline, id_stage, ex_stage, mem_stage, wb_stage,
}
use pipeline_lab.Sim.Pipeline.Stages.{event}
use pipeline_lab.Sim.Pipeline.Cycle.{cycle, run_loop, run, drained}
use pipeline_lab.Sim.Pipeline.Trace.Held.{Holds}
use pipeline_lab.Sim.Pipeline.Trace.Worked.{new_events, fetch_event}
use pipeline_lab.Sim.Pipeline.Trace.Shifts.{Shifts, cycle-Shifts}
use pipeline_lab.Sim.Pipeline.Trace.Apart.{
  Differ, Apart, IdIn, OfCycle, Apart-append, OfCycle-append, event-OfCycle,
}

abbrev pub Between : Latch → ℕ → ℕ → Type 0
Between l lo hi = l.bubble ≡ false → IdIn lo hi l.id

-- An event of an instruction that has been fetched, in a cycle that has been.
abbrev pub Placed : ℕ → ℕ → TraceEvent → Type 0
Placed ids cycles e = IdIn 0 ids e.id × (1 ≤ e.cycle) × (e.cycle ≤ cycles)

-- The latches hold instructions in the order of their fetch, and the trace has at most one event
-- for each instruction and cycle.
pub record IsTraced (p : Pipeline) : Type 0 where
  pub wb_end : ℕ
  pub mem_end : ℕ
  pub ex_end : ℕ
  pub mem_after : wb_end ≤ mem_end
  pub ex_after : mem_end ≤ ex_end
  pub id_after : ex_end ≤ p.next_id
  pub in_wb : Between p.memwb 0 wb_end
  pub in_mem : Between p.exmem wb_end mem_end
  pub in_ex : Between p.idex mem_end ex_end
  pub in_id : Between p.ifid ex_end p.next_id
  pub counted : length p.traced ≡ p.next_id
  pub reported : p.stats.cycles ≡ p.cycle
  pub placed : All (Placed p.next_id p.cycle) p.trace
  pub apart : Apart p.trace

pub new_pipeline-IsTraced :
    (bytes : ℕ) (forwarding : Bool) → IsTraced (new_pipeline bytes forwarding)
unfolding new_pipeline
new_pipeline-IsTraced bytes forwarding = record {
  wb_end = 0;
  mem_end = 0;
  ex_end = 0;
  mem_after = omega arith;
  ex_after = omega arith;
  id_after = omega arith;
  in_wb = λ live. cc;
  in_mem = λ live. cc;
  in_ex = λ live. cc;
  in_id = λ live. cc;
  counted = refl;
  reported = refl;
  placed = tt;
  apart = tt;
}

Holds-Between : (l n : Latch) (lo hi : ℕ) → Holds l n → Between l lo hi → Between n lo hi
Holds-Between l n lo hi holds b live =
    let (real, same) = holds live in let (k, id, low, high) = b real in (k, same ∙ id, low, high)

next_id_le : (fetching : Bool) (n : ℕ) → n ≤ (if fetching then n + 1 else n)
next_id_le true n = omega arith
next_id_le false n = omega arith

fetch_event-OfCycle :
    (fetching : Bool) (n c : ℕ)
    → All (OfCycle c n (if fetching then n + 1 else n)) (fetch_event fetching (pos n) c)
      × Apart (fetch_event fetching (pos n) c)
fetch_event-OfCycle true n c = (((refl, (n, refl, omega arith, omega arith)), tt), (tt, tt))
fetch_event-OfCycle false n c = (tt, tt)

-- The events of a cycle are of the instructions fetched so far, each at most once.
new_events-OfCycle :
    (p : Pipeline) (t : IsTraced p) (fetching : Bool)
    → All
        (OfCycle (p.cycle + 1) 0 (if fetching then p.next_id + 1 else p.next_id))
        (new_events p fetching)
      × Apart (new_events p fetching)
new_events-OfCycle p t fetching =
    let c = p.cycle + 1 in
    let hi = if fetching then p.next_id + 1 else p.next_id in
    let le = next_id_le fetching p.next_id in
    let with_id =
      OfCycle-append c t.ex_end p.next_id hi (fetch_event fetching (pos p.next_id) c)
        (event p.ifid c id_stage) t.id_after le (fetch_event-OfCycle fetching p.next_id c)
        (event-OfCycle p.ifid c t.ex_end p.next_id id_stage t.in_id) in
    let with_ex =
      OfCycle-append c t.mem_end t.ex_end hi _ (event p.idex c ex_stage) t.ex_after
        (omega (arith, t.id_after)) with_id
        (event-OfCycle p.idex c t.mem_end t.ex_end ex_stage t.in_ex) in
    let with_mem =
      OfCycle-append c t.wb_end t.mem_end hi _ (event p.exmem c mem_stage) t.mem_after
        (omega (arith, t.id_after, t.ex_after)) with_ex
        (event-OfCycle p.exmem c t.wb_end t.mem_end mem_stage t.in_mem) in
    OfCycle-append c 0 t.wb_end hi _ (event p.memwb c wb_stage) (omega arith)
      (omega (arith, t.id_after, t.ex_after, t.mem_after)) with_mem
      (event-OfCycle p.memwb c 0 t.wb_end wb_stage t.in_wb)

-- The events of the cycles before, and those of a cycle.
Placed-after :
    (ids ids' c : ℕ) (old new : List TraceEvent)
    → ids ≤ ids'
    → All (Placed ids c) old
    → All (OfCycle (c + 1) 0 ids') new
    → All (Placed ids' (c + 1)) (old ++ new)
Placed-after ids ids' c old new le ho hn =
    All-append (Placed ids' (c + 1)) old new
      (All-weaken (Placed ids c) (Placed ids' (c + 1)) old
        (λ e ((k, id, low, high), first, last). ((k, id, low, omega arith), first, omega arith)) ho)
      (All-weaken (OfCycle (c + 1) 0 ids') (Placed ids' (c + 1)) new
        (λ e (at, id). (id, omega arith, omega arith)) hn)

Apart-after :
    (ids ids' c : ℕ) (old new : List TraceEvent)
    → All (Placed ids c) old
    → Apart old
    → All (OfCycle (c + 1) 0 ids') new
    → Apart new
    → Apart (old ++ new)
Apart-after ids ids' c old new ho ao hn an = Apart-append old new ao an (
    All-weaken (Placed ids c) (λ e. All (Differ e) new) old
      (λ e (id, first, last).
        All-weaken (OfCycle (c + 1) 0 ids') (Differ e) new
          (λ e' (at, id') same_id same_cycle. absurd (omega arith)) hn)
      ho)

module _ (p p' : Pipeline) (t : IsTraced p) (s : Shifts p p') where
  next_id_after : p.next_id ≤ p'.next_id
  next_id_after = rw s.next (next_id_le s.fetching p.next_id)

  Placed-next : All (Placed p'.next_id p'.cycle) p'.trace
  Placed-next =
      rw (s.events, s.next, s.clock)
        (Placed-after p.next_id _ p.cycle p.trace _ (next_id_le s.fetching p.next_id) t.placed
          (new_events-OfCycle p t s.fetching).0)

  Apart-next : Apart p'.trace
  Apart-next = rw s.events (
      Apart-after p.next_id (if s.fetching then p.next_id + 1 else p.next_id) p.cycle p.trace _
        t.placed t.apart (new_events-OfCycle p t s.fetching).0
        (new_events-OfCycle p t s.fetching).1)

  counted_next : length p'.traced ≡ p'.next_id
  counted_next = s.entries ∙ ap (λ n. if s.fetching then n + 1 else n) t.counted ∙ sym s.next

  -- What has just been fetched is in IF/ID.
  fetched_in_id :
      (lo : ℕ)
      → lo ≤ p.next_id
      → s.fetching ≡ true
      → p'.ifid.id ≡ pos p.next_id
      → IdIn lo p'.next_id p'.ifid.id
  fetched_in_id lo low on id =
      let next : p'.next_id ≡ p.next_id + 1 = s.next ∙ if-true _ _ on in
      (p.next_id, id, low, omega arith)

  IsTraced-next :
      (ex_end : ℕ)
      → t.ex_end ≤ ex_end
      → ex_end ≤ p'.next_id
      → Between p'.idex t.ex_end ex_end
      → Between p'.ifid ex_end p'.next_id
      → IsTraced p'
  IsTraced-next ex_end after id_after in_ex in_id = record {
    wb_end = t.mem_end;
    mem_end = t.ex_end;
    ex_end = ex_end;
    mem_after = t.ex_after;
    ex_after = after;
    id_after = id_after;
    in_wb = λ live.
        let (k, id, low, high) = Holds-Between p.exmem p'.memwb _ _ s.to_wb t.in_mem live in
        (k, id, omega arith, high);
    in_mem = Holds-Between p.idex p'.exmem _ _ s.to_mem t.in_ex;
    in_ex = in_ex;
    in_id = in_id;
    counted = counted_next;
    reported = s.report ∙ sym s.clock;
    placed = Placed-next;
    apart = Apart-next;
  }

  Shifts-IsTraced : IsTraced p'
  Shifts-IsTraced = elim (Bool-cases p'.idex.bubble) [
    | inl no_idex ↦
        IsTraced-next t.ex_end (omega arith) (omega (arith, t.id_after, next_id_after))
          (λ live. absurd (true-not-false (sym no_idex ∙ live)))
          (λ live. elim (s.to_id live) [
            | inl (on, id) ↦ fetched_in_id t.ex_end t.id_after on id
            | inr (_, real, same) ↦
                let (k, id, low, high) = t.in_id real in
                (k, same ∙ id, low, omega (arith, next_id_after))
          ])
    | inr real ↦
        IsTraced-next p.next_id t.id_after next_id_after
          (Holds-Between p.ifid p'.idex _ _ s.to_ex t.in_id)
          (λ live. elim (s.to_id live) [
            | inl (on, id) ↦ fetched_in_id p.next_id (omega arith) on id
            | inr (no_idex, _, _) ↦ absurd (true-not-false (sym no_idex ∙ real))
          ])
  ]

-- A cycle that does not throw keeps the trace in order: the latches hold instructions in the order
-- in which they were fetched, every event is of an instruction that has been fetched and of a cycle
-- that has been counted, and no instruction has two events in one cycle.
pub cycle-IsTraced :
    (program : Program) (p p' : Pipeline) → IsTraced p → cycle program p ≡ ok p' → IsTraced p'
cycle-IsTraced program p p' t e = Shifts-IsTraced p p' t (cycle-Shifts program p p' e)

err-not-ok : {f : Fault} {a : Pipeline} → ¬ (◌≡◌ {A = Result Fault Pipeline} (err f) (ok a))
err-not-ok h = cc

run_loop-IsTraced :
    (program : Program) (left : ℕ) (p final : Pipeline)
    → IsTraced p
    → run_loop left program p ≡ ok final
    → IsTraced final
unfolding run_loop
run_loop-IsTraced program zero p final t e = elim (Bool-cases (drained p)) [
  | inl done ↦ subst IsTraced (ok-injective (sym (if-true _ _ done) ∙ e)) t
  | inr busy ↦ let throws = sym (if-false _ _ busy) ∙ e in absurd (err-not-ok throws)
]
run_loop-IsTraced program (suc left) p final t e = elim (Bool-cases (drained p)) [
  | inl done ↦ subst IsTraced (ok-injective (sym (if-true _ _ done) ∙ e)) t
  | inr busy ↦
      let (p', step, more) =
        >>=-eq-ok (cycle program p) (run_loop left program) (sym (if-false _ _ busy) ∙ e) in
      run_loop-IsTraced program left p' final (cycle-IsTraced program p p' t step) more
]

pub run-IsTraced :
    (program : Program) (bytes max_cycles : ℕ) (forwarding : Bool) (final : Pipeline)
    → run max_cycles program (new_pipeline bytes forwarding) ≡ ok final
    → IsTraced final
unfolding run
run-IsTraced program bytes max_cycles forwarding final e =
    run_loop-IsTraced program (max_cycles - (new_pipeline bytes forwarding).cycle)
      (new_pipeline bytes forwarding) final (new_pipeline-IsTraced bytes forwarding) e
