-- ===== src/Viz/Report.antt =====
-- `renderPerformanceReport`, src/viz/trace.cpp, with `cpi` and `ipc` of
-- include/plab/sim/pipeline.hpp. The counts are below 2^53, so that a `double` holds them exactly.
pub mod Accuracy
use pipeline_lab.Prelude.{
  ℕ, zero, suc, ◌+◌, ◌*◌, ◌/◌, ◌%◌, ◌^◌, ◌∷◌, [], ◌++◌, leb, ltb, ◌==◌, if◌then◌else◌,
}
use pipeline_lab.Prelude.Text.{codes, decimal, pad_left}
use pipeline_lab.Asm.Program.{Text}
use pipeline_lab.Sim.Pipeline.State.{PipelineStats}

-- A quotient rounded to the nearest integer, and to the even one of two that are as near.
unfoldable pub nearest : ℕ → ℕ → ℕ
nearest a b =
    let q = a / b in
    let r = a % b in if ltb (2 * r) b then q else if ltb b (2 * r) then q + 1 else q + q % 2

-- A `double` that is not negative: its 53 bits over a power of 2.
pub record Double : Type 0 where
  pub mantissa : ℕ
  pub denominator : ℕ

abbrev pub zero_double : Double
zero_double = record { mantissa = 0; denominator = 1 }

-- The power of 2 that brings the quotient to 53 bits, within 2^fuel.
unfoldable pub denominator_for : ℕ → ℕ → ℕ → ℕ
denominator_for zero a b = 1
denominator_for (suc fuel) a b =
    let further = 2 * denominator_for fuel (2 * a) b in if leb (2 ^ 52 * b) a then 1 else further

-- `static_cast<double>(a) / static_cast<double>(b)`; a count that is not 0 is at most 2^53 times
-- another, so 128 doublings are enough.
unfoldable pub quotient : ℕ → ℕ → Double
unfolding denominator_for nearest
quotient a b =
    let d = denominator_for 128 a b in record { mantissa = nearest (a * d) b; denominator = d }

-- `std::fixed` and `std::setprecision(3)`.
unfoldable pub thousandths : Double → ℕ
unfolding nearest
thousandths x = nearest (x.mantissa * 1000) x.denominator

unfoldable pub fixed_text : Double → Text
unfolding thousandths decimal pad_left
fixed_text x =
    let t = thousandths x in decimal (t / 1000) ++ codes "." ++ pad_left 3 b'0' (decimal (t % 1000))

unfoldable pub cpi : PipelineStats → Double
unfolding quotient
cpi stats = if stats.retired == 0 then zero_double else quotient stats.cycles stats.retired

unfoldable pub ipc : PipelineStats → Double
unfolding quotient
ipc stats = if stats.cycles == 0 then zero_double else quotient stats.retired stats.cycles

abbrev line_end : Text
line_end = 10 ∷ []

unfoldable pub render_performance_report : PipelineStats → Text
unfolding cpi ipc fixed_text decimal
render_performance_report stats =
    codes "=== Performance Report ==="
    ++ line_end
    ++ codes "Cycles           : "
    ++ decimal stats.cycles
    ++ line_end
    ++ codes "Instructions     : "
    ++ decimal stats.retired
    ++ line_end
    ++ codes "CPI              : "
    ++ fixed_text (cpi stats)
    ++ line_end
    ++ codes "IPC              : "
    ++ fixed_text (ipc stats)
    ++ line_end
    ++ codes "Stall cycles     : "
    ++ decimal stats.stall_cycles
    ++ codes "  (load-use / RAW)"
    ++ line_end
    ++ codes "Flushes          : "
    ++ decimal stats.flushes
    ++ codes "  ("
    ++ decimal stats.flush_bubbles
    ++ codes " penalty cycles)"
    ++ line_end
    ++ codes "Forwards         : "
    ++ decimal stats.forwards
    ++ line_end
