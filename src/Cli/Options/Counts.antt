-- ===== src/Cli/Options/Counts.antt =====
-- `parseMemCount` of src/main.cpp: which texts are counts.
use pipeline_lab.Prelude.{
  ℕ, ◌^◌, ◌<◌, ◌≡◌, ◌≢◌, refl, ◌∙◌, arith, [], ◌∷◌, All, Bool, true, false, ltb, ◌==◌,
  if◌then◌else◌, some,
}
use pipeline_lab.Prelude.Int.{pos}
use pipeline_lab.Prelude.Text.{decimal}
use pipeline_lab.Asm.Program.{Text}
use pipeline_lab.Asm.Lexer.{span, is_digit, digits_value}
use pipeline_lab.Asm.Lexer.Decimal.{IsDigit, decimal-All, decimal-value, decimal-some}
use pipeline_lab.Cli.Options.{int_value, from_digits, from_chars, parse_mem_count}

span-All : (test : ℕ → Bool) (s : Text) → All (λ c. test c ≡ true) s → span test s ≡ (s, [])
unfolding span
span-All test [] h = refl
span-All test (c ∷ s) h = let rest = span-All test s h.1 in rw (h.0, rest) refl

not_minus : (c : ℕ) → is_digit c ≡ true → (c == b'-') ≡ false
unfolding is_digit
not_minus c h = ground arith

from_digits-unsigned :
    (s : Text) (n : ℕ)
    → s ≢ []
    → digits_value false 0 s ≡ some n
    → n < 2 ^ 31
    → from_digits false s [] ≡ some (pos n, [])
unfolding from_digits int_value
from_digits-unsigned [] n one value small = absurd (one refl)
from_digits-unsigned (c ∷ cs) n one value small =
    let fits : ltb n (2 ^ 31) ≡ true = ground arith in
    rw (from_digits, value) (rw (int_value, fits) refl)

from_chars-unsigned :
    (c : ℕ) (cs : Text) → All IsDigit (c ∷ cs) → from_chars (c ∷ cs) ≡ from_digits false (c ∷ cs) []
unfolding from_chars
from_chars-unsigned c cs digits =
    let taken = span-All is_digit (c ∷ cs) digits in
    (λ i.
      from_digits (not_minus c digits.0 i)
        (span is_digit (if not_minus c digits.0 i then cs else c ∷ cs)).0
        (span is_digit (if not_minus c digits.0 i then cs else c ∷ cs)).1)
    ∙ λ i. from_digits false (taken i).0 (taken i).1

-- The digits of a number, alone.
parse_mem_count-digits :
    (s : Text) (n : ℕ)
    → All IsDigit s
    → s ≢ []
    → digits_value false 0 s ≡ some n
    → n < 2 ^ 31
    → parse_mem_count s ≡ some n
unfolding parse_mem_count
parse_mem_count-digits [] n digits one value small = absurd (one refl)
parse_mem_count-digits (c ∷ cs) n digits one value small =
    rw
      (
        parse_mem_count,
        from_chars-unsigned c cs digits ∙ from_digits-unsigned (c ∷ cs) n one value small,
      )
      refl

pub parse_mem_count-decimal : (n : ℕ) → n < 2 ^ 31 → parse_mem_count (decimal n) ≡ some n
parse_mem_count-decimal n small =
    parse_mem_count-digits (decimal n) n (decimal-All n) (decimal-some n) (decimal-value n) small
