-- ===== src/Viz/Diagram.antt =====
-- `renderPipelineDiagram`, src/viz/trace.cpp: one row for each fetched instruction, one column for
-- each cycle.
pub mod Cells
pub mod Layout
pub mod Table
use pipeline_lab.Prelude.{
  ℕ, zero, suc, ◌+◌, ◌-◌, List, [], ◌∷◌, ◌++◌, length, get_elem?, get_or, set, replicate, take, not,
  leb, ltb, if◌then◌else◌, Option, none, some,
}
use pipeline_lab.Prelude.Int.{pos, negsuc}
use pipeline_lab.Prelude.Text.{codes, decimal, hexadecimal, pad_left, pad_right}
use pipeline_lab.Asm.Program.{Text}
use pipeline_lab.Sim.Pipeline.State.{
  Stage, if_stage, id_stage, ex_stage, mem_stage, wb_stage, TraceEvent, TracedInstr, Pipeline,
}

unfoldable pub stage_name : Stage → Text
stage_name if_stage = codes "IF"
stage_name id_stage = codes "ID"
stage_name ex_stage = codes "EX"
stage_name mem_stage = codes "MEM"
stage_name wb_stage = codes "WB"

unfoldable pub hex_pc : ℕ → Text
unfolding hexadecimal pad_left
hex_pc pc = codes "0x" ++ pad_left 4 b'0' (hexadecimal pc)

-- `grid[id][cycle]`; an empty text is a cycle in which the instruction is not in the pipeline.
abbrev pub Grid : Type 0
Grid = List (List Text)

abbrev pub empty_grid : ℕ → ℕ → Grid
empty_grid n cycles = replicate n (replicate (cycles + 1) [])

-- A write to `grid[id][cycle]`; none if an index is past the end, which C++ leaves undefined.
unfoldable pub write_cell : Grid → ℕ → ℕ → Text → Option Grid
write_cell grid id cycle name = elim (get_elem? grid id) [
  | none ↦ none
  | some row ↦ if ltb cycle (length row) then some (set grid id (set row cycle name)) else none
]

-- One round of the loop over the trace.
unfoldable pub mark : ℕ → Grid → TraceEvent → Option Grid
unfolding write_cell stage_name
mark n grid e = elim e.id [
  | negsuc _ ↦ some grid
  | pos id ↦ if not (ltb id n) then some grid else write_cell grid id e.cycle (stage_name e.stage)
]

unfoldable pub fill_grid : ℕ → Grid → List TraceEvent → Option Grid
fill_grid n grid [] = some grid
fill_grid n grid (e ∷ trace) = elim (mark n grid e) [
  | none ↦ none
  | some grid' ↦ fill_grid n grid' trace
]

abbrev pub label_width : ℕ
label_width = 28

abbrev pub cell_width : ℕ
cell_width = 4

-- `for (c = first; c < first + count; ++c) os << cell(c)`.
unfoldable pub each_cycle : ℕ → ℕ → (ℕ → Text) → Text
each_cycle zero first cell = []
each_cycle (suc count) first cell = cell first ++ each_cycle count (first + 1) cell

unfoldable pub header_row : ℕ → Text
unfolding each_cycle pad_left pad_right decimal
header_row cycles =
    pad_right label_width b' ' (codes "addr  instruction")
    ++ each_cycle cycles 1 (λ c. pad_left cell_width b' ' (b'c' ∷ decimal c))
    ++ 10 ∷ []

-- The label, cut below the width of its column.
unfoldable pub row_label : TracedInstr → Text
unfolding hex_pc
row_label instr =
    let label = hex_pc instr.pc ++ codes "  " ++ instr.text in
    if leb label_width (length label) then take (label_width - 1) label else label

unfoldable pub cell_text : Text → Text
cell_text [] = codes "."
cell_text (c ∷ cs) = c ∷ cs

-- `grid[id][c]`.
abbrev pub cell_at : Grid → ℕ → ℕ → Text
cell_at grid id c = get_or (get_or grid id []) c []

unfoldable pub diagram_row : ℕ → Grid → ℕ → TracedInstr → Text
unfolding row_label each_cycle cell_text pad_left pad_right
diagram_row cycles grid id instr =
    pad_right label_width b' ' (row_label instr)
    ++ each_cycle cycles 1 (λ c. pad_left cell_width b' ' (cell_text (cell_at grid id c)))
    ++ 10 ∷ []

-- The rows from `id` on.
unfoldable pub diagram_rows : ℕ → Grid → ℕ → List TracedInstr → Text
unfolding diagram_row
diagram_rows cycles grid id [] = []
diagram_rows cycles grid id (instr ∷ instrs) =
    diagram_row cycles grid id instr ++ diagram_rows cycles grid (id + 1) instrs

-- None if the grid is written past its end.
unfoldable pub render_pipeline_diagram : Pipeline → Option Text
unfolding fill_grid header_row diagram_rows
render_pipeline_diagram pipeline =
    let n = length pipeline.traced in
    let cycles = pipeline.stats.cycles in
    elim (fill_grid n (empty_grid n cycles) pipeline.trace) [
      | none ↦ none
      | some grid ↦ some (header_row cycles ++ diagram_rows cycles grid 0 pipeline.traced)
    ]
