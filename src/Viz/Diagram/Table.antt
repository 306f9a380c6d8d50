-- ===== src/Viz/Diagram/Table.antt =====
-- The lines of `renderPipelineDiagram`, src/viz/trace.cpp, byte by byte: the label, and the columns.
use pipeline_lab.Prelude.{
  ℕ, Bool, zero, suc, ◌+◌, ◌-◌, ◌*◌, ◌≤◌, ◌<◌, ◌≡◌, refl, sym, ap, ◌∙◌, arith, List, [], ◌∷◌, ◌++◌,
  length, length-append, replicate, take, drop, take-append, drop-append, Option, none, some, ok,
  ◌==◌, Bool-cases, inl, inr,
}
use mathlib.Core.Path.{subst}
use pipeline_lab.Prelude.Text.{codes, decimal, pad_left, pad_right}
use pipeline_lab.Asm.Program.{Program, Text}
use pipeline_lab.Sim.Pipeline.State.{
  Stage, if_stage, id_stage, ex_stage, mem_stage, wb_stage, TracedInstr, Pipeline, new_pipeline,
}
use pipeline_lab.Sim.Pipeline.Cycle.{run}
use pipeline_lab.Viz.Diagram.{
  stage_name, Grid, cell_at, cell_text, each_cycle, header_row, row_label, diagram_row,
  diagram_rows, render_pipeline_diagram,
}
use pipeline_lab.Viz.Diagram.Cells.{shown, stage_at, run-Diagram}
use pipeline_lab.Viz.Diagram.Layout.{
  length-pad_left, length-pad_right, length-cell_text, length-row_label, length-decimal,
}

-- A line of a run of `cycles` cycles: the label on the left of 28 bytes, and for each cycle its cell
-- on the right of 4 bytes.
pub record IsLine (cycles : ℕ) (label : Text) (cell : ℕ → Text) (line : Text) : Type 0 where
  pub wide : length line ≡ 28 + 4 * cycles
  pub labelled : take 28 line ≡ label ++ replicate (28 - length label) b' '
  pub celled :
      (c : ℕ)
      → 0 < c
      → c ≤ cycles
      → take 4 (drop (24 + 4 * c) line) ≡ replicate (4 - length (cell c)) b' ' ++ cell c

-- What a cell shows of a cycle.
abbrev mark_text : Option Stage → Text
mark_text none = codes "."
mark_text (some if_stage) = codes "IF"
mark_text (some id_stage) = codes "ID"
mark_text (some ex_stage) = codes "EX"
mark_text (some mem_stage) = codes "MEM"
mark_text (some wb_stage) = codes "WB"

-- One line for each instruction, from the one with number `id` on: its label, and the stage in which
-- the trace has it in each cycle.
abbrev pub AreRows : Pipeline → ℕ → List TracedInstr → List Text → Type 0
AreRows p id [] [] = Unit
AreRows p id (instr ∷ instrs) (line ∷ lines) =
    IsLine p.stats.cycles (row_label instr) (λ c. mark_text (stage_at p.trace id c)) line
    × AreRows p (id + 1) instrs lines
AreRows p id _ _ = ⊥

-- The lines, each with its end.
abbrev pub join_lines : List Text → Text
join_lines [] = []
join_lines (line ∷ lines) = (line ++ 10 ∷ []) ++ join_lines lines

-- A text of cells of four bytes.
length-each_cycle :
    (count first : ℕ) (cell : ℕ → Text)
    → ((c : ℕ) → c < first + count → length (cell c) ≡ 4)
    → length (each_cycle count first cell) ≡ 4 * count
unfolding each_cycle
length-each_cycle zero first cell h = omega arith
length-each_cycle (suc count) first cell h =
    let rest = length-each_cycle count (first + 1) cell (λ c lt. h c (omega arith)) in
    omega (
      arith,
      length-append (cell first) (each_cycle count (first + 1) cell),
      h first (omega arith),
      rest,
    )

each_cycle-cell :
    (count first c m : ℕ) (cell : ℕ → Text)
    → ((d : ℕ) → d < first + count → length (cell d) ≡ 4)
    → first ≤ c
    → c < first + count
    → m ≡ 4 * (c - first)
    → take 4 (drop m (each_cycle count first cell)) ≡ cell c
unfolding each_cycle
each_cycle-cell zero first c m cell h from to at = absurd (omega arith)
each_cycle-cell (suc count) first c m cell h from to at = elim (Bool-cases (first == c)) [
  | inl here ↦
      let same : first ≡ c = ground arith in
      let none_before : m ≡ 0 = omega arith in
      rw none_before
        (take-append (cell first) _ 4 (omega (arith, h first (omega arith))) ∙ ap cell same)
  | inr later ↦
      let other : first + 1 ≤ c = ground arith in
      ap (take 4) (
        drop-append (cell first) _ m (4 * (c - (first + 1))) (omega (arith, h first (omega arith))))
      ∙ each_cycle-cell count (first + 1) c (4 * (c - (first + 1))) cell (λ d lt. h d (omega arith))
          other (omega arith) refl
]

-- The line of a label and cells that fit.
abbrev line_of : ℕ → Text → (ℕ → Text) → Text
line_of cycles label cell =
    pad_right 28 b' ' label ++ each_cycle cycles 1 (λ c. pad_left 4 b' ' (cell c))

line_of-IsLine :
    (cycles : ℕ) (label : Text) (cell : ℕ → Text)
    → length label ≤ 28
    → ((c : ℕ) → c < 1 + cycles → length (cell c) ≤ 4)
    → IsLine cycles label cell (line_of cycles label cell)
unfolding pad_left pad_right
line_of-IsLine cycles label cell short fits =
    let left = length-pad_right 28 b' ' label short in
    let four : (c : ℕ) → c < 1 + cycles → length (pad_left 4 b' ' (cell c)) ≡ 4 =
      λ c lt. length-pad_left 4 b' ' (cell c) (fits c lt) in
    let columns = each_cycle cycles 1 (λ c. pad_left 4 b' ' (cell c)) in
    record {
      wide =
          length-append (pad_right 28 b' ' label) columns
          ∙ omega (arith, left, length-each_cycle cycles 1 _ four);
      labelled = take-append (pad_right 28 b' ' label) columns 28 (sym left);
      celled = λ c above upto.
          ap (take 4) (
            drop-append (pad_right 28 b' ' label) columns (24 + 4 * c) (4 * (c - 1))
              (omega (arith, left)))
          ∙ each_cycle-cell cycles 1 c (4 * (c - 1)) _ four (omega arith) (omega arith) refl;
    }

-- A row as the code prints it is its line and an end.
header_row_line :
    (cycles : ℕ)
    → header_row cycles
      ≡ line_of cycles (codes "addr  instruction") (λ c. b'c' ∷ decimal c) ++ 10 ∷ []
unfolding header_row
header_row_line cycles = refl

module _ (p : Pipeline) (grid : Grid)
    (cells : (id c : ℕ) → cell_at grid id c ≡ shown (stage_at p.trace id c) []) where
  abbrev marks : ℕ → ℕ → Text
  marks id c = mark_text (stage_at p.trace id c)

  cell_text-shown : (stage : Option Stage) → cell_text (shown stage []) ≡ mark_text stage
  unfolding cell_text stage_name
  cell_text-shown none = refl
  cell_text-shown (some if_stage) = refl
  cell_text-shown (some id_stage) = refl
  cell_text-shown (some ex_stage) = refl
  cell_text-shown (some mem_stage) = refl
  cell_text-shown (some wb_stage) = refl

  marks_lem : (id : ℕ) → (λ c. cell_text (cell_at grid id c)) ≡ marks id
  marks_lem id i c = (ap cell_text (cells id c) ∙ cell_text-shown (stage_at p.trace id c)) i

  abbrev row_lines : ℕ → List TracedInstr → List Text
  row_lines id [] = []
  row_lines id (instr ∷ instrs) =
      line_of p.stats.cycles (row_label instr) (marks id) ∷ row_lines (id + 1) instrs

  diagram_row_line :
      (id : ℕ) (instr : TracedInstr)
      → diagram_row p.stats.cycles grid id instr
        ≡ line_of p.stats.cycles (row_label instr) (marks id) ++ 10 ∷ []
  unfolding diagram_row
  diagram_row_line id instr =
      ap (λ cell. line_of p.stats.cycles (row_label instr) cell ++ 10 ∷ []) (marks_lem id)

  diagram_rows_lines :
      (id : ℕ) (instrs : List TracedInstr)
      → diagram_rows p.stats.cycles grid id instrs ≡ join_lines (row_lines id instrs)
  unfolding diagram_rows
  diagram_rows_lines id [] = refl
  diagram_rows_lines id (instr ∷ instrs) =
      λ i. diagram_row_line id instr i ++ diagram_rows_lines (id + 1) instrs i

  mark_text-fits : (stage : Option Stage) → length (mark_text stage) ≤ 4
  mark_text-fits stage = subst (λ t. length t ≤ 4) (cell_text-shown stage) (length-cell_text stage)

  row_lines-AreRows :
      (id : ℕ) (instrs : List TracedInstr) → AreRows p id instrs (row_lines id instrs)
  row_lines-AreRows id [] = tt
  row_lines-AreRows id (instr ∷ instrs) = (
    line_of-IsLine p.stats.cycles (row_label instr) (marks id)
        (omega (arith, length-row_label instr)) (λ c lt. mark_text-fits (stage_at p.trace id c)),
    row_lines-AreRows (id + 1) instrs,
  )

-- The diagram of a run of fewer than 1000 cycles is a table. Its lines, each with its end, are a
-- header and one row for each fetched instruction. A line is 28 bytes for the label, on the left, and
-- four for each cycle, with the cell on the right. The header's label is `addr  instruction` and its
-- cell for the cycle `c` is the letter c and the number; a row's label is that of its instruction,
-- and its cell is the stage in which the trace has the instruction in that cycle, or a dot.
pub render-AreRows :
    (program : Program) (bytes max_cycles : ℕ) (forwarding : Bool) (final : Pipeline)
    → run max_cycles program (new_pipeline bytes forwarding) ≡ ok final
    → final.stats.cycles < 1000
    → (header : Text) × (rows : List Text) × (render_pipeline_diagram final
        ≡ some (join_lines (header ∷ rows)))
      × IsLine final.stats.cycles (codes "addr  instruction") (λ c. b'c' ∷ decimal c) header
      × AreRows final 0 final.traced rows
render-AreRows program bytes max_cycles forwarding final e few =
    let d = run-Diagram program bytes max_cycles forwarding final e in
    (
      line_of final.stats.cycles (codes "addr  instruction") (λ c. b'c' ∷ decimal c),
      row_lines final d.grid d.cells 0 final.traced,
      d.rendered ∙ λ i. some (
          header_row_line final.stats.cycles i
          ++ diagram_rows_lines final d.grid d.cells 0 final.traced i),
      line_of-IsLine final.stats.cycles (codes "addr  instruction") (λ c. b'c' ∷ decimal c)
          (omega arith) (λ c lt. omega (arith, length-decimal c (omega arith))),
      row_lines-AreRows final d.grid d.cells 0 final.traced,
    )
