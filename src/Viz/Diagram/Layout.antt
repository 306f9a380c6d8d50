-- ===== src/Viz/Diagram/Layout.antt =====
-- The widths of the parts of the rows of `renderPipelineDiagram`, src/viz/trace.cpp.
use pipeline_lab.Prelude.{
  ℕ, ◌/◌, ◌%◌, true, zero, suc, ◌+◌, ◌-◌, ◌*◌, ◌≤◌, ◌<◌, ◌≡◌, arith, [], ◌∷◌, ◌++◌, length,
  length-append, length-replicate, length-take, replicate, leb, ltb, Bool-cases, inl, inr, if-true,
  if-false, Option, none, some,
}
use pipeline_lab.Prelude.Text.{codes, decimal, decimal_loop, pad_left, pad_right}
use pipeline_lab.Asm.Program.{Text}
use pipeline_lab.Sim.Pipeline.State.{
  Stage, if_stage, id_stage, ex_stage, mem_stage, wb_stage, TracedInstr,
}
use pipeline_lab.Viz.Diagram.{stage_name, cell_text, row_label, hex_pc}
use pipeline_lab.Viz.Diagram.Cells.{shown}

pub length-pad_left :
    (width fill : ℕ) (s : Text) → length s ≤ width → length (pad_left width fill s) ≡ width
unfolding pad_left
length-pad_left width fill s fits = omega (
  arith,
  length-append (replicate (width - length s) fill) s,
  length-replicate (width - length s) fill,
)

pub length-pad_right :
    (width fill : ℕ) (s : Text) → length s ≤ width → length (pad_right width fill s) ≡ width
unfolding pad_right
length-pad_right width fill s fits = omega (
  arith,
  length-append s (replicate (width - length s) fill),
  length-replicate (width - length s) fill,
)

pub length-cell_text : (stage : Option Stage) → length (cell_text (shown stage [])) ≤ 4
unfolding cell_text stage_name
length-cell_text none = omega arith
length-cell_text (some if_stage) = omega arith
length-cell_text (some id_stage) = omega arith
length-cell_text (some ex_stage) = omega arith
length-cell_text (some mem_stage) = omega arith
length-cell_text (some wb_stage) = omega arith

pub length-row_label : (instr : TracedInstr) → length (row_label instr) ≤ 27
unfolding row_label
length-row_label instr =
    let label = hex_pc instr.pc ++ codes "  " ++ instr.text in
    elim (Bool-cases (leb 28 (length label))) [
      | inl long ↦ rw (if-true _ _ long) (omega (arith, length-take 27 label))
      | inr short ↦ rw (if-false _ _ short) (ground arith)
    ]

-- At most so many digits below a bound.
Digits : ℕ → ℕ → Type 0
Digits bound digits =
    (fuel n : ℕ) (acc : Text) → n < bound → length (decimal_loop fuel n acc) ≤ length acc + digits

one_digit : Digits 10 1
unfolding Digits decimal_loop
one_digit zero n acc small = omega arith
one_digit (suc fuel) n acc small =
    let last : ltb n 10 ≡ true = ground arith in rw (if-true _ _ last) (omega arith)

Digits-next :
    (bound digits : ℕ) → 0 < digits → Digits bound digits → Digits (10 * bound) (digits + 1)
unfolding Digits decimal_loop
Digits-next bound digits more_than_none h zero n acc small = omega arith
Digits-next bound digits more_than_none h (suc fuel) n acc small = elim (Bool-cases (ltb n 10)) [
  | inl last ↦ rw (if-true _ _ last) (omega arith)
  | inr more ↦
      rw (if-false _ _ more) (omega (arith, h fuel (n / 10) ((b'0' + n % 10) ∷ acc) (omega arith)))
]

pub length-decimal : (n : ℕ) → n < 1000 → length (decimal n) ≤ 3
unfolding decimal Digits
length-decimal n small =
    Digits-next 100 2 (omega arith) (Digits-next 10 1 (omega arith) one_digit) (suc n) n [] small
