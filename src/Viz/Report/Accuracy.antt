-- ===== src/Viz/Report/Accuracy.antt =====
-- How near the three decimals of src/viz/trace.cpp are to the quotient of the counts.
use native.Mathlib.Nat.{
  div-add-mod', mod-lt, pow-suc, one-le-pow, mul-le-mul_right, mul-le-mul_left, mul_assoc,
  lt_of_mul-lt-mul_right,
}
use pipeline_lab.Prelude.{
  ℕ, zero, suc, ◌+◌, ◌*◌, ◌%◌, ◌^◌, ◌<◌, ◌≤◌, ◌≡◌, sym, ◌∙◌, arith, false, ltb, leb, if-true,
  if-false, ◌==◌, Bool-cases, inl, inr,
}
use pipeline_lab.Words.Bits.{double_pow}
use pipeline_lab.Viz.Report.{nearest, denominator_for, quotient, thousandths, cpi, ipc}
use pipeline_lab.Sim.Pipeline.State.{PipelineStats}

-- `t` of `b` parts is at most half a part from `a`.
abbrev Near : ℕ → ℕ → ℕ → Type 0
Near a b t = (2 * (t * b) ≤ 2 * a + b) × (2 * a ≤ 2 * (t * b) + b)

next_part : (t b : ℕ) → (t + 1) * b ≡ t * b + b
next_part t b = grind arith

half_up : (q b a r : ℕ) → q * b + r ≡ a → r < b → b ≤ 2 * r → Near a b (q + 1)
half_up q b a r whole small high = rw (next_part q b) (omega arith, omega arith)

half_down : (q b a r : ℕ) → q * b + r ≡ a → 2 * r ≤ b → Near a b q
half_down q b a r whole low = (omega arith, omega arith)

half_even : (q b a r : ℕ) → q * b + r ≡ a → r < b → 2 * r ≡ b → Near a b (q + q % 2)
half_even q b a r whole small half = elim (Bool-cases (q % 2 == 0)) [
  | inl even ↦
      let zero_left : q + q % 2 ≡ q = ground arith in
      rw (zero_left) (half_down q b a r whole (omega arith))
  | inr odd ↦
      let one_left : q + q % 2 ≡ q + 1 = ground arith in
      rw (one_left) (half_up q b a r whole small (omega arith))
]

nearest-Near : (a b : ℕ) → 0 < b → Near a b (nearest a b)
unfolding nearest
nearest-Near a b pos =
    let whole = div-add-mod' a b in
    let rest : a % b < b = mod-lt a pos in
    elim (Bool-cases (ltb (2 * (a % b)) b)) [
      | inl low ↦ rw (if-true _ _ low) (half_down _ b a _ whole (ground arith))
      | inr high ↦ rw (if-false _ _ high) (elim (Bool-cases (ltb b (2 * (a % b)))) [
        | inl more ↦ rw (if-true _ _ more) (half_up _ b a _ whole rest (ground arith))
        | inr less ↦ rw (if-false _ _ less) (half_even _ b a _ whole rest (ground arith))
      ])
    ]

denominator-pos : (fuel a b : ℕ) → 0 < denominator_for fuel a b
unfolding denominator_for
denominator-pos zero a b = omega arith
denominator-pos (suc fuel) a b =
    let rest = denominator-pos fuel (2 * a) b in
    elim (Bool-cases (leb (2 ^ 52 * b) a)) [
      | inl large ↦ rw (if-true _ _ large) (omega arith)
      | inr small ↦ rw (if-false _ _ small) (omega (arith, rest))
    ]

-- A quotient below 2^(53 - k) is doubled k times.
denominator-large :
    (k fuel a b : ℕ) → k ≤ fuel → a * 2 ^ k < 2 ^ 53 * b → 2 ^ k ≤ denominator_for fuel a b
unfolding denominator_for
denominator-large zero fuel a b enough small = denominator-pos fuel a b
denominator-large (suc k) zero a b enough small = absurd (omega (arith, enough))
denominator-large (suc k) (suc fuel) a b enough small =
    let twice : 2 * a * 2 ^ k ≡ a * 2 ^ suc k = mul_assoc 2 a (2 ^ k) ∙ sym (double_pow a k) in
    let less : 2 * a * 1 ≤ 2 * a * 2 ^ k = mul-le-mul_left (2 * a) (one-le-pow k 2 (omega arith)) in
    let rest =
      denominator-large k fuel (2 * a) b (omega (arith, enough)) (omega (arith, twice, small)) in
    elim (Bool-cases (leb (2 ^ 52 * b) a)) [
      | inl large ↦
          absurd
            (let over : 2 ^ 52 * b ≤ a = ground arith in omega (arith, over, less, twice, small))
      | inr small' ↦ rw (if-false _ _ small') (omega (arith, rest, pow-suc 2 k))
    ]

-- `s` and `t` are less than `b` apart.
abbrev pub Within : ℕ → ℕ → ℕ → Type 0
Within b s t = (s < t + b) × (t < s + b)

quotient-Within :
    (a b d m t : ℕ)
    → 0 < b
    → 1001 ≤ d
    → Near (a * d) b m
    → Near (m * 1000) d t
    → Within b (t * b) (1000 * a)
quotient-Within a b d m t pos large (m_low, m_high) (t_low, t_high) =
    let few : 1001 * b ≤ d * b = mul-le-mul_right b large in
    let low : (2 * (t * d)) * b ≤ (2 * (m * 1000) + d) * b = mul-le-mul_right b t_low in
    let high : (2 * (m * 1000)) * b ≤ (2 * (t * d) + d) * b = mul-le-mul_right b t_high in
    let parts : (2 * (t * d)) * b ≡ 2 * (t * b * d) = grind arith in
    let marks : (2 * (m * 1000)) * b ≡ 2000 * (m * b) = grind arith in
    let parts_more : (2 * (t * d) + d) * b ≡ 2 * (t * b * d) + d * b = grind arith in
    let marks_more : (2 * (m * 1000) + d) * b ≡ 2000 * (m * b) + d * b = grind arith in
    let sum : (1000 * a + b) * d ≡ 1000 * (a * d) + d * b = grind arith in
    let sum_parts : (t * b + b) * d ≡ t * b * d + d * b = grind arith in
    let back : 1000 * a * d ≡ 1000 * (a * d) = mul_assoc 1000 a d in
    (
      lt_of_mul-lt-mul_right d
          (omega (arith, few, low, high, parts, marks, parts_more, marks_more, sum)),
      lt_of_mul-lt-mul_right d
          (omega (arith, few, low, high, parts, marks, parts_more, marks_more, sum_parts, back)),
    )

thousandths-quotient :
    (a b : ℕ) → 0 < b → a < 2 ^ 43 * b → Within b (thousandths (quotient a b) * b) (1000 * a)
unfolding thousandths quotient
thousandths-quotient a b pos small =
    let d = denominator_for 128 a b in
    let large : 1024 ≤ d = denominator-large 10 128 a b (omega arith) (omega (arith, small)) in
    quotient-Within a b d (nearest (a * d) b) _ pos (omega (arith, large))
      (nearest-Near (a * d) b pos) (nearest-Near _ d (omega (arith, large)))

-- The printed CPI and IPC: if both counts are from 1 to 2^43 - 1, then the three decimals of each
-- are less than a thousandth from the quotient of the counts.
pub thousandths-Within :
    (stats : PipelineStats)
    → 0 < stats.retired
    → 0 < stats.cycles
    → stats.retired < 2 ^ 43
    → stats.cycles < 2 ^ 43
    → Within stats.retired (thousandths (cpi stats) * stats.retired) (1000 * stats.cycles)
      × Within stats.cycles (thousandths (ipc stats) * stats.cycles) (1000 * stats.retired)
unfolding cpi ipc
thousandths-Within stats r c rs cs =
    let some_retired : (stats.retired == 0) ≡ false = ground arith in
    let some_cycles : (stats.cycles == 0) ≡ false = ground arith in
    (
      rw (some_retired) (thousandths-quotient stats.cycles stats.retired r (omega arith)),
      rw (some_cycles) (thousandths-quotient stats.retired stats.cycles c (omega arith)),
    )
