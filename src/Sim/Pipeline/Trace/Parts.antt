-- ===== src/Sim/Pipeline/Trace/Parts.antt =====
-- The calls of one cycle of src/sim/pipeline.cpp that does not throw, with what they return.
use pipeline_lab.Prelude.{◌≡◌, refl, sym, ◌∙◌, if◌then◌else◌, Result, ok, err, ok-injective}
use pipeline_lab.Asm.Program.{Program}
use pipeline_lab.Sim.Fault.{Fault}
use pipeline_lab.Sim.Memory.{DataMemory}
use pipeline_lab.Sim.Pipeline.State.{Latch, empty_latch, Pipeline}
use pipeline_lab.Sim.Pipeline.Stages.{
  access, Execution, execute, detect_stall, decode_stage, fetch_into,
}
use pipeline_lab.Sim.Pipeline.Cycle.{cycle, commit}
use pipeline_lab.Sim.Pipeline.Stepping.{in_ex, will_fetch, cycle_lem}
use pipeline_lab.Sim.Pipeline.Hazards.{cycle_access}

-- A cycle that does not throw, in its parts.
pub record Parts (program : Program) (p p' : Pipeline) : Type 0 where
  pub mem : DataMemory
  pub n_memwb : Latch
  pub q : Pipeline
  pub ex : Execution
  pub r : Pipeline
  pub n_ifid : Latch
  pub accessed : access p.exmem p.mem ≡ ok (mem, n_memwb)
  pub executed : execute (in_ex program p mem) ≡ (q, ex)
  pub fetches :
      (if detect_stall p then ok (q, empty_latch) else fetch_into program q) ≡ ok (r, n_ifid)
  pub committed :
      p' ≡ commit (detect_stall p) (will_fetch program p) ex n_ifid (decode_stage q) n_memwb r

cycle_fetch_faults :
    (program : Program) (p : Pipeline) (mem : DataMemory) (n : Latch) (q : Pipeline)
    (ex : Execution) (f : Fault)
    → access p.exmem p.mem ≡ ok (mem, n)
    → execute (in_ex program p mem) ≡ (q, ex)
    → (if detect_stall p then ok (q, empty_latch) else fetch_into program q) ≡ err f
    → cycle program p ≡ err f
unfolding cycle
cycle_fetch_faults program p mem n q ex f accessed executed fetches =
    rw (accessed, executed, fetches)

ok-not-err : {a : Pipeline} {f : Fault} → ¬ (◌≡◌ {A = Result Fault Pipeline} (ok a) (err f))
ok-not-err h = cc

Parts-committed :
    (program : Program) (p p' : Pipeline) (mem : DataMemory) (n : Latch) (q : Pipeline)
    (ex : Execution) (r : Pipeline) (l : Latch)
    → cycle program p ≡ ok p'
    → access p.exmem p.mem ≡ ok (mem, n)
    → execute (in_ex program p mem) ≡ (q, ex)
    → (if detect_stall p then ok (q, empty_latch) else fetch_into program q) ≡ ok (r, l)
    → p' ≡ commit (detect_stall p) (will_fetch program p) ex l (decode_stage q) n r
Parts-committed program p p' mem n q ex r l e accessed executed fetches =
    ok-injective (sym e ∙ cycle_lem program p mem n l q r ex accessed executed fetches)

module _ (program : Program) (p p' : Pipeline) (e : cycle program p ≡ ok p') where
  Parts-fetched :
      (mem : DataMemory) (n : Latch) (q : Pipeline) (ex : Execution)
      → access p.exmem p.mem ≡ ok (mem, n)
      → execute (in_ex program p mem) ≡ (q, ex)
      → (fetched : Result Fault (Pipeline × Latch))
      → (if detect_stall p then ok (q, empty_latch) else fetch_into program q) ≡ fetched
      → Parts program p p'
  Parts-fetched mem n q ex accessed executed (ok (r, l)) fetches = record {
    mem = mem;
    n_memwb = n;
    q = q;
    ex = ex;
    r = r;
    n_ifid = l;
    accessed = accessed;
    executed = executed;
    fetches = fetches;
    committed = Parts-committed program p p' mem n q ex r l e accessed executed fetches;
  }
  Parts-fetched mem n q ex accessed executed (err f) fetches =
      absurd
        (ok-not-err (sym e ∙ cycle_fetch_faults program p mem n q ex f accessed executed fetches))

  pub cycle-Parts : Parts program p p'
  cycle-Parts =
      let (mem, n, accessed) = cycle_access program p p' e in
      Parts-fetched mem n (execute (in_ex program p mem)).0 (execute (in_ex program p mem)).1
        accessed refl _ refl
