-- ===== src/Asm/Lexer/Decimal.antt =====
-- The digits that `std::to_string` prints, as src/asm/lexer.cpp reads them.
use pipeline_lab.Prelude.{
  ℕ, zero, suc, ◌+◌, ◌*◌, ◌/◌, ◌%◌, ◌<◌, ◌≡◌, ◌≢◌, refl, ap, ◌∙◌, arith, [], ◌∷◌, ◌++◌, All, Bool,
  true, false, ltb, if-true, if-false, Bool-cases, inl, inr, some,
}
use pipeline_lab.Prelude.Text.{decimal, decimal_loop}
use pipeline_lab.Asm.Program.{Text}
use pipeline_lab.Asm.Lexer.{span, next_is, is_digit, digits_value, digit_value}

abbrev pub IsDigit : ℕ → Type 0
IsDigit c = is_digit c ≡ true

pub decimal_loop-All :
    (fuel n : ℕ) (acc : Text) → All IsDigit acc → All IsDigit (decimal_loop fuel n acc)
unfolding decimal_loop is_digit
decimal_loop-All zero n acc h = h
decimal_loop-All (suc fuel) n acc h = elim (Bool-cases (ltb n 10)) [
  | inl last ↦ rw (if-true _ _ last) (ground arith, h)
  | inr more ↦ rw (if-false _ _ more) (decimal_loop-All fuel (n / 10) _ (ground arith, h))
]

digit_value_lem : (d : ℕ) → d < 10 → digit_value false (b'0' + d) ≡ some d
unfolding digit_value is_digit
digit_value_lem d small = ground arith

digits_value-next :
    (acc d value : ℕ) (rest : Text)
    → d < 10
    → acc * 10 + d ≡ value
    → digits_value false acc ((b'0' + d) ∷ rest) ≡ digits_value false value rest
unfolding digits_value
digits_value-next acc d value rest small sum =
    rw (digits_value, digit_value_lem d small) (ap (λ (k : ℕ). digits_value false k rest) sum)

pub decimal_loop-value :
    (fuel n : ℕ) (rest : Text)
    → n < fuel
    → digits_value false 0 (decimal_loop fuel n rest) ≡ digits_value false n rest
unfolding decimal_loop
decimal_loop-value zero n rest lt = absurd (omega arith)
decimal_loop-value (suc fuel) n rest lt = elim (Bool-cases (ltb n 10)) [
  | inl last ↦ rw (if-true _ _ last) (digits_value-next 0 n n rest (ground arith) (omega arith))
  | inr more ↦ rw (if-false _ _ more) (
      decimal_loop-value fuel (n / 10) ((b'0' + n % 10) ∷ rest) (ground arith)
      ∙ digits_value-next (n / 10) (n % 10) n rest (omega arith) (omega arith))
]

-- A span ends where the test first fails.
pub span-append :
    (test : ℕ → Bool) (s rest : Text)
    → All (λ c. test c ≡ true) s
    → next_is test rest ≡ false
    → span test (s ++ rest) ≡ (s, rest)
unfolding span
span-append test [] [] h stop = refl
span-append test [] (c ∷ cs) h stop = rw stop refl
span-append test (c ∷ s) rest h stop =
    let more = span-append test s rest h.1 stop in rw (h.0, more) refl

decimal_loop-some : (fuel n : ℕ) (acc : Text) → acc ≢ [] → decimal_loop fuel n acc ≢ []
unfolding decimal_loop
decimal_loop-some zero n acc h = h
decimal_loop-some (suc fuel) n acc h = elim (Bool-cases (ltb n 10)) [
  | inl last ↦ rw (if-true _ _ last) (λ e. cc)
  | inr more ↦ rw (if-false _ _ more) (decimal_loop-some fuel (n / 10) _ (λ e. cc))
]

pub decimal-some : (n : ℕ) → decimal n ≢ []
unfolding decimal decimal_loop
decimal-some n = elim (Bool-cases (ltb n 10)) [
  | inl last ↦ rw (if-true _ _ last) (λ e. cc)
  | inr more ↦ rw (if-false _ _ more) (decimal_loop-some n (n / 10) _ (λ e. cc))
]

pub decimal-All : (n : ℕ) → All IsDigit (decimal n)
unfolding decimal
decimal-All n = decimal_loop-All (suc n) n [] tt

pub decimal-value : (n : ℕ) → digits_value false 0 (decimal n) ≡ some n
unfolding decimal digits_value
decimal-value n = decimal_loop-value (suc n) n [] (omega arith)
