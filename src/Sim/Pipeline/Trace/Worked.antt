-- ===== src/Sim/Pipeline/Trace/Worked.antt =====
-- The trace and the counters once EX of src/sim/pipeline.cpp has run.
use pipeline_lab.Prelude.{
  ℕ, ◌+◌, ◌≡◌, refl, sym, ap, ◌∙◌, List, [], ◌∷◌, ◌++◌, Bool, true, false, if◌then◌else◌,
}
use mathlib.Core.Path.{subst}
use mathlib.Core.List.{append_assoc}
use pipeline_lab.Prelude.Int.{ℤ, pos, negsuc}
use pipeline_lab.Asm.Program.{Program}
use pipeline_lab.Sim.Memory.{DataMemory}
use pipeline_lab.Sim.Pipeline.State.{
  Pipeline, PipelineStats, TraceEvent, if_stage, id_stage, ex_stage, mem_stage, wb_stage,
}
use pipeline_lab.Sim.Pipeline.Stages.{Execution, execute, event, write_back, record_stages}
use pipeline_lab.Sim.Pipeline.Cycle.{cycle}
use pipeline_lab.Sim.Pipeline.Stepping.{in_ex, will_fetch}
use pipeline_lab.Sim.Pipeline.Hazards.{execute-stats}
use pipeline_lab.Sim.Pipeline.Trace.Held.{Holds, execute-Holds, shut}

abbrev pub fetch_event : Bool → ℤ → ℕ → List TraceEvent
fetch_event fetching id cycle =
    if fetching then record { id = id; cycle = cycle; stage = if_stage } ∷ [] else []

-- The events of one cycle.
abbrev pub new_events : Pipeline → Bool → List TraceEvent
new_events p fetching =
    fetch_event fetching (pos p.next_id) (p.cycle + 1)
    ++ event p.ifid (p.cycle + 1) id_stage
    ++ event p.idex (p.cycle + 1) ex_stage
    ++ event p.exmem (p.cycle + 1) mem_stage
    ++ event p.memwb (p.cycle + 1) wb_stage

-- What EX leaves of the pipeline that it gets.
pub record Worked (program : Program) (p q : Pipeline) : Type 0 where
  pub clock : q.cycle ≡ p.cycle + 1
  pub report : q.stats.cycles ≡ p.cycle + 1
  pub next : q.next_id ≡ p.next_id
  pub traced : q.traced ≡ p.traced
  pub trace : q.trace ≡ p.trace ++ new_events p (will_fetch program p)
  pub ifid : q.ifid ≡ p.ifid
  pub open_now : shut program q ≡ shut program p

fetch_event-id :
    (p : Pipeline) (fetching : Bool)
    → fetch_event fetching (if fetching then pos p.next_id else negsuc 0) (p.cycle + 1)
      ≡ fetch_event fetching (pos p.next_id) (p.cycle + 1)
fetch_event-id p true = refl
fetch_event-id p false = refl

append-five {ℓ} :
    {A : Type ℓ} (t a b c d e : List A) → t ++ a ++ b ++ c ++ d ++ e ≡ t ++ (a ++ b ++ c ++ d ++ e)
append-five t a b c d e = simp append_assoc

Worked-in_ex :
    (program : Program) (p : Pipeline) (mem : DataMemory) (stats : PipelineStats)
    → stats.cycles ≡ p.cycle + 1
    → Worked program p (record (in_ex program p mem) { stats = stats })
unfolding write_back record_stages
Worked-in_ex program p mem stats in_time = record {
  clock = refl;
  report = in_time;
  next = refl;
  traced = refl;
  trace =
      ap
        (λ (es : List TraceEvent).
          p.trace
          ++ es
          ++ event p.ifid (p.cycle + 1) id_stage
          ++ event p.idex (p.cycle + 1) ex_stage
          ++ event p.exmem (p.cycle + 1) mem_stage
          ++ event p.memwb (p.cycle + 1) wb_stage)
        (fetch_event-id p (will_fetch program p))
      ∙ append-five p.trace (fetch_event (will_fetch program p) (pos p.next_id) (p.cycle + 1))
          (event p.ifid (p.cycle + 1) id_stage) (event p.idex (p.cycle + 1) ex_stage)
          (event p.exmem (p.cycle + 1) mem_stage) (event p.memwb (p.cycle + 1) wb_stage);
  ifid = refl;
  open_now = refl;
}

in_ex-cycles :
    (program : Program) (p : Pipeline) (mem : DataMemory)
    → (in_ex program p mem).stats.cycles ≡ p.cycle + 1
unfolding write_back record_stages
in_ex-cycles program p mem = refl

pub execute-Worked :
    (program : Program) (p q : Pipeline) (mem : DataMemory) (ex : Execution)
    → execute (in_ex program p mem) ≡ (q, ex)
    → Worked program p q × Holds p.idex ex.next
unfolding write_back record_stages
execute-Worked program p q mem ex executed =
    let (stats, same, in_time, _, _) = execute-stats (in_ex program p mem) in
    let shape = sym same ∙ ap (λ t. t.0) executed in
    (
      subst (Worked program p) shape
          (Worked-in_ex program p mem stats (in_time ∙ in_ex-cycles program p mem)),
      subst (λ (x : Execution). Holds p.idex x.next) (ap (λ t. t.1) executed)
          (execute-Holds (in_ex program p mem)),
    )
