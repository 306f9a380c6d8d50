-- ===== src/Viz/Diagram/Cells.antt =====
-- What the cells of the diagram of src/viz/trace.cpp show, and that the grid is never written past
-- its end.
use pipeline_lab.Prelude.{
  ℕ, zero, suc, ◌+◌, ◌≤◌, ◌<◌, ◌≡◌, ◌≢◌, refl, sym, ap, ◌∙◌, arith, List, [], ◌∷◌, ◌++◌, length,
  get_elem?, get_or, get_or-set, set, length-set, length-replicate, replicate, All, All-set,
  All-replicate, All-get_or_lt, Bool, true, false, not, ◌&&◌, ltb, ◌==◌, if◌then◌else◌, if-true,
  if-false, Bool-cases, inl, inr, Option, none, some, ok,
}
use mathlib.Core.Path.{subst}
use pipeline_lab.Prelude.Int.{ℤ, pos, negsuc}
use pipeline_lab.Asm.Program.{Program, Text}
use pipeline_lab.Sim.Pipeline.State.{Stage, TraceEvent, Pipeline, new_pipeline}
use pipeline_lab.Sim.Pipeline.Cycle.{run}
use pipeline_lab.Sim.Pipeline.Trace.Apart.{Differ, Apart}
use pipeline_lab.Sim.Pipeline.Trace.Recorded.{Placed, IsTraced, run-IsTraced}
use pipeline_lab.Viz.Diagram.{
  stage_name, Grid, empty_grid, write_cell, mark, fill_grid, cell_at, header_row, diagram_rows,
  render_pipeline_diagram,
}

-- The event is of the instruction `id` in the cycle `c`.
abbrev pub is_event : TraceEvent → ℕ → ℕ → Bool
is_event e id c = elim e.id [ pos k ↦ k == id && e.cycle == c | negsuc _ ↦ false ]

-- The stage in which the trace has the instruction `id` in the cycle `c`.
unfoldable pub stage_at : List TraceEvent → ℕ → ℕ → Option Stage
stage_at [] id c = none
stage_at (e ∷ trace) id c =
    let later = stage_at trace id c in if is_event e id c then some e.stage else later

-- A grid with a row for each of `n` instructions and a place for each cycle up to `cycles`.
abbrev pub IsGrid : ℕ → ℕ → Grid → Type 0
IsGrid n cycles grid = (length grid ≡ n) × All (λ (row : List Text). length row ≡ cycles + 1) grid

empty_grid-IsGrid : (n cycles : ℕ) → IsGrid n cycles (empty_grid n cycles)
empty_grid-IsGrid n cycles = (
  length-replicate n _,
  All-replicate (λ (row : List Text). length row ≡ cycles + 1) n _
      (length-replicate (cycles + 1) []),
)

get_elem?-get_or {ℓ} :
    {A : Type ℓ} (xs : List A) (i : ℕ) (d : A)
    → i < length xs
    → get_elem? xs i ≡ some (get_or xs i d)
get_elem?-get_or [] i d lt = absurd (omega arith)
get_elem?-get_or (x ∷ xs) zero d lt = refl
get_elem?-get_or (x ∷ xs) (suc i) d lt = get_elem?-get_or xs i d (omega arith)

-- A write inside the grid.
abbrev pub Written : ℕ → ℕ → Grid → ℕ → ℕ → Text → Type 0
Written n cycles grid k c name =
    (grid' : Grid) × (write_cell grid k c name ≡ some grid')
    × IsGrid n cycles grid'
    × ((id c' : ℕ)
        → cell_at grid' id c' ≡ (if k == id && c == c' then name else cell_at grid id c'))

cell_written :
    (grid : Grid) (k c : ℕ) (name : Text) (id c' : ℕ)
    → get_or (set (get_or grid k []) c name) c' []
      ≡ (if c == c' then name else get_or (get_or grid k []) c' [])
    → get_or (if k == id then set (get_or grid k []) c name else get_or grid id []) c' []
      ≡ (if k == id && c == c' then name else cell_at grid id c')
cell_written grid k c name id c' inner = elim (Bool-cases (k == id)) [
  | inl same ↦
      let at : k ≡ id = ground arith in
      rw same (inner ∙ λ i. if c == c' then name else get_or (get_or grid (at i) []) c' [])
  | inr other ↦ rw other refl
]

write_cell-Written :
    (n cycles : ℕ) (grid : Grid) (k c : ℕ) (name : Text)
    → IsGrid n cycles grid
    → k < n
    → c ≤ cycles
    → Written n cycles grid k c name
unfolding write_cell
write_cell-Written n cycles grid k c name (rows, widths) row_lt col_le =
    let row = get_or grid k [] in
    let wide : length row ≡ cycles + 1 =
      All-get_or_lt (λ (r : List Text). length r ≡ cycles + 1) grid k [] widths (omega arith) in
    let found = get_elem?-get_or grid k [] (omega arith) in
    let inside : ltb c (length row) ≡ true = ground arith in
    (
      set grid k (set row c name),
      rw (write_cell, found) (if-true _ _ inside),
      (
        length-set grid k _ ∙ rows,
        All-set (λ (r : List Text). length r ≡ cycles + 1) grid k _ widths
            (length-set row c name ∙ wide),
      ),
      λ id c'.
          let outer = get_or-set grid k id (set row c name) [] (omega arith) in
          let inner = get_or-set row c c' name [] (omega arith) in
          ap (λ r. get_or r c' []) outer ∙ cell_written grid k c name id c' inner,
    )

-- The events of one instruction in one cycle are not there twice.
stage_at-Differ :
    (e : TraceEvent) (k : ℕ) (trace : List TraceEvent)
    → e.id ≡ pos k
    → All (Differ e) trace
    → stage_at trace k e.cycle ≡ none
unfolding stage_at
stage_at-Differ e k [] at apart = refl
stage_at-Differ e k (e' ∷ trace) at (first, others) =
    if-false _ _
      (not_event e.cycle e'.id e'.cycle (λ same same_cycle. first (at ∙ sym same) (sym same_cycle)))
    ∙ stage_at-Differ e k trace at others
  where
    not_event :
        (c : ℕ) (id : ℤ) (c' : ℕ)
        → (id ≡ pos k → c' ≢ c)
        → (elim id [ pos n ↦ n == k && c' == c | negsuc _ ↦ false ]) ≡ false
    not_event c (negsuc _) c' h = refl
    not_event c (pos n) c' h = elim (Bool-cases (n == k && c' == c)) [
      | inl both ↦
          let same : n ≡ k = ground arith in
          let same_cycle : c' ≡ c = ground arith in absurd (h (ap pos same) same_cycle)
      | inr differs ↦ differs
    ]

-- What the cell shows after the trace, where the grid held `before`.
abbrev pub shown : Option Stage → Text → Text
shown none before = before
shown (some stage) before = stage_name stage

abbrev pub Filled : ℕ → ℕ → Grid → List TraceEvent → Type 0
Filled n cycles grid trace =
    (grid' : Grid) × (fill_grid n grid trace ≡ some grid')
    × IsGrid n cycles grid'
    × ((id c : ℕ) → cell_at grid' id c ≡ shown (stage_at trace id c) (cell_at grid id c))

mark_lem :
    (n : ℕ) (grid : Grid) (e : TraceEvent) (k : ℕ)
    → e.id ≡ pos k
    → k < n
    → mark n grid e ≡ write_cell grid k e.cycle (stage_name e.stage)
unfolding mark
mark_lem n grid e k at lt =
    let inside : ltb k n ≡ true = ground arith in rw at (if-false _ _ (ap not inside))

shown_first :
    (e : TraceEvent) (k : ℕ) (trace : List TraceEvent) (before after : Text) (id c : ℕ)
    → e.id ≡ pos k
    → All (Differ e) trace
    → after ≡ (if k == id && e.cycle == c then stage_name e.stage else before)
    → shown (stage_at trace id c) after ≡ shown (stage_at (e ∷ trace) id c) before
unfolding stage_at
shown_first e k trace before after id c at differ step =
    elim (Bool-cases (k == id && e.cycle == c)) [
      | inl here ↦
          let event : is_event e id c ≡ true = rw at here in
          let same : k ≡ id = ground arith in
          let same_cycle : e.cycle ≡ c = ground arith in
          let none_later : stage_at trace id c ≡ none =
            (λ i. stage_at trace (sym same i) (sym same_cycle i))
            ∙ stage_at-Differ e k trace at differ in
          ap (λ (s : Option Stage). shown s after) none_later
          ∙ step
          ∙ if-true _ _ here
          ∙ ap (λ (s : Option Stage). shown s before) (sym (if-true _ _ event))
      | inr not_here ↦
          let event : is_event e id c ≡ false = rw at not_here in
          ap (shown (stage_at trace id c)) (step ∙ if-false _ _ not_here)
          ∙ ap (λ (s : Option Stage). shown s before) (sym (if-false _ _ event))
    ]

fill_grid-Filled :
    (n cycles : ℕ) (grid : Grid) (trace : List TraceEvent)
    → IsGrid n cycles grid
    → All (Placed n cycles) trace
    → Apart trace
    → Filled n cycles grid trace
unfolding fill_grid stage_at
fill_grid-Filled n cycles grid [] shape placed apart = (grid, refl, shape, λ id c. refl)
fill_grid-Filled n cycles grid (e ∷ trace) shape (((k, at, _, lt), first, last), placed)
      (differ, apart) =
    let (g1, step, shape1, cells1) =
      write_cell-Written n cycles grid k e.cycle (stage_name e.stage) shape lt last in
    let (g2, rest, shape2, cells2) = fill_grid-Filled n cycles g1 trace shape1 placed apart in
    (
      g2,
      ap (λ (o : Option Grid). elim o [ none ↦ none | some grid' ↦ fill_grid n grid' trace ])
            (mark_lem n grid e k at lt ∙ step)
          ∙ rest,
      shape2,
      λ id c.
          cells2 id c
          ∙ shown_first e k trace (cell_at grid id c) (cell_at g1 id c) id c at differ
              (cells1 id c),
    )

replicate-get_or {ℓ} : {A : Type ℓ} (n i : ℕ) (a : A) → get_or (replicate n a) i a ≡ a
replicate-get_or zero i a = refl
replicate-get_or (suc n) zero a = refl
replicate-get_or (suc n) (suc i) a = replicate-get_or n i a

cell_at-empty_grid : (n cycles id c : ℕ) → cell_at (empty_grid n cycles) id c ≡ []
cell_at-empty_grid zero cycles id c = refl
cell_at-empty_grid (suc n) cycles zero c = replicate-get_or (cycles + 1) c []
cell_at-empty_grid (suc n) cycles (suc id) c = cell_at-empty_grid n cycles id c

-- What a diagram is: the rows of a grid whose cells show the stages of the trace.
pub record Diagram (pipeline : Pipeline) : Type 0 where
  pub grid : Grid
  pub rendered :
      render_pipeline_diagram pipeline
      ≡ some (
          header_row pipeline.stats.cycles
          ++ diagram_rows pipeline.stats.cycles grid 0 pipeline.traced)
  pub cells : (id c : ℕ) → cell_at grid id c ≡ shown (stage_at pipeline.trace id c) []

pub IsTraced-Diagram : (pipeline : Pipeline) → IsTraced pipeline → Diagram pipeline
unfolding render_pipeline_diagram
IsTraced-Diagram pipeline t =
    let n = length pipeline.traced in
    let cycles = pipeline.stats.cycles in
    let placed : All (Placed n cycles) pipeline.trace =
      subst (λ (m : ℕ × ℕ). All (Placed m.0 m.1) pipeline.trace)
        (λ i. (sym t.counted i, sym t.reported i)) t.placed in
    let (grid, filled, _, cells) =
      fill_grid-Filled n cycles (empty_grid n cycles) pipeline.trace (empty_grid-IsGrid n cycles)
        placed t.apart in
    record {
      grid = grid;
      rendered = rw (render_pipeline_diagram, filled) refl;
      cells = λ id c.
          cells id c ∙ ap (shown (stage_at pipeline.trace id c)) (cell_at-empty_grid n cycles id c);
    }

-- The diagram of a run: the grid is never written past its end, and after every run that ends, each
-- cell shows the stage in which the trace has that instruction in that cycle, and is empty if it has
-- none.
pub run-Diagram :
    (program : Program) (bytes max_cycles : ℕ) (forwarding : Bool) (final : Pipeline)
    → run max_cycles program (new_pipeline bytes forwarding) ≡ ok final
    → Diagram final
run-Diagram program bytes max_cycles forwarding final e =
    IsTraced-Diagram final (run-IsTraced program bytes max_cycles forwarding final e)
