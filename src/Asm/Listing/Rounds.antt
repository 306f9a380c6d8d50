-- ===== src/Asm/Listing/Rounds.antt =====
-- The rounds of the lexer of src/asm/lexer.cpp that read a word or a decimal literal.
use pipeline_lab.Prelude.{
  ℕ, suc, ◌-◌, ◌^◌, ◌≤◌, ◌≡◌, ◌≢◌, refl, arith, [], ◌∷◌, ◌++◌, All, Bool, true, false, ◌||◌, leb,
  ◌==◌, none, some, ok,
}
use pipeline_lab.Prelude.Int.{pos, negsuc}
use pipeline_lab.Asm.Program.{Text}
use pipeline_lab.Asm.Lexer.{
  is_digit, is_alpha, is_alnum, is_ident_start, is_ident_char, digits_value, literal_value, is_sign,
  next_is, is_hex_prefix, stoll, number_token, lex_number, lex_word, punctuation, lex_round,
}
use pipeline_lab.Asm.Lexer.Decimal.{IsDigit, span-append}
use pipeline_lab.Asm.Listing.{
  Piece, word, piece_text, piece_tokens, line_after, column_after, IsPiece,
}

-- A round that reads a piece off the front of the text.
abbrev pub ReadsPiece : Piece → Text → ℕ → ℕ → ℕ → Text → Type 0
ReadsPiece p rest line column c cs =
    lex_round c cs line column
    ≡ ok (
      piece_tokens p line column,
      record { rest = rest; line = line_after p line; column = column_after p column },
    )

ident_start :
    (c : ℕ)
    → is_ident_start c ≡ true
    → ((c == 10) ≡ false)
      × ((c == b' ' || c == 9 || c == 13) ≡ false)
      × ((c == b';') ≡ false)
      × (punctuation c ≡ none)
      × (is_digit c ≡ false)
      × (is_sign c ≡ false)
unfolding is_ident_start is_alpha is_digit punctuation
ident_start c h =
    (ground arith, ground arith, ground arith, ground arith, ground arith, ground arith)

pub word-Reads :
    (c : ℕ) (cs rest : Text) (line column : ℕ)
    → IsPiece (word c cs)
    → next_is is_ident_char rest ≡ false
    → ReadsPiece (word c cs) rest line column c (cs ++ rest)
unfolding lex_round lex_word piece_tokens column_after piece_text
word-Reads c cs rest line column (start, more) stop =
    let (a, b, d, e, f, g) = ident_start c start in
    let taken = span-append is_ident_char cs rest more stop in
    rw (a, b, d, e, f, g, start, taken) refl

digit_start :
    (c : ℕ)
    → is_digit c ≡ true
    → ((c == 10) ≡ false)
      × ((c == b' ' || c == 9 || c == 13) ≡ false)
      × ((c == b';') ≡ false)
      × (punctuation c ≡ none)
      × (is_sign c ≡ false)
      × (is_alnum c ≡ true)
      × ((c == b'x' || c == b'X') ≡ false)
      × ((c == b'-') ≡ false)
unfolding is_alnum is_alpha is_digit punctuation
digit_start c h = (
  ground arith,
  ground arith,
  ground arith,
  ground arith,
  ground arith,
  ground arith,
  ground arith,
  ground arith,
)

digits-alnum : (s : Text) → All IsDigit s → All (λ c. is_alnum c ≡ true) s
digits-alnum [] h = tt
digits-alnum (c ∷ s) h = ((digit_start c h.0).5, digits-alnum s h.1)

alnum_stops : (rest : Text) → next_is is_ident_char rest ≡ false → next_is is_alnum rest ≡ false
unfolding is_ident_char
alnum_stops [] h = refl
alnum_stops (c ∷ cs) h = ground arith

x_stops :
    (ds rest : Text)
    → All IsDigit ds
    → next_is is_ident_char rest ≡ false
    → next_is (λ x. x == b'x' || x == b'X') (ds ++ rest) ≡ false
unfolding is_ident_char is_alnum is_alpha
x_stops [] [] h stop = refl
x_stops [] (c ∷ cs) h stop = ground arith
x_stops (d ∷ ds) rest h stop = (digit_start d h.0).6

no_hex_prefix :
    (c : ℕ) (ds rest : Text)
    → All IsDigit ds
    → next_is is_ident_char rest ≡ false
    → is_hex_prefix (c ∷ ds ++ rest) ≡ false
no_hex_prefix c ds rest h stop = let none_next = x_stops ds rest h stop in ground arith

-- The decimal digits of a literal, behind its sign or without one.
stoll-digits :
    (negative : Bool) (s : Text) (n : ℕ)
    → s ≢ []
    → digits_value false 0 s ≡ some n
    → stoll negative false s ≡ literal_value negative n
unfolding stoll
stoll-digits negative [] n one value = absurd (one refl)
stoll-digits negative (c ∷ cs) n one value = rw (stoll, value) refl

pub plain-Reads :
    (c : ℕ) (ds rest : Text) (line column n : ℕ)
    → All IsDigit (c ∷ ds)
    → digits_value false 0 (c ∷ ds) ≡ some n
    → n ≤ 2 ^ 63 - 1
    → next_is is_ident_char rest ≡ false
    → lex_round c (ds ++ rest) line column ≡ number_token (c ∷ ds) rest line column (some (pos n))
unfolding lex_round lex_number literal_value
plain-Reads c ds rest line column n digits value small stop =
    let (a, b, d, e, f, g, x, m) = digit_start c digits.0 in
    let hex = no_hex_prefix c ds rest digits.1 stop in
    let taken =
      span-append is_alnum (c ∷ ds) rest (digits-alnum (c ∷ ds) digits) (alnum_stops rest stop) in
    let read = stoll-digits false (c ∷ ds) n (λ q. cc) value in
    let fits : leb n (2 ^ 63 - 1) ≡ true = ground arith in
    rw (a, b, d, e, digits.0, f, hex, taken, m, read, fits) refl

pub minus-Reads :
    (d : ℕ) (ds rest : Text) (line column k : ℕ)
    → All IsDigit (d ∷ ds)
    → digits_value false 0 (d ∷ ds) ≡ some (suc k)
    → suc k ≤ 2 ^ 63
    → next_is is_ident_char rest ≡ false
    → lex_round b'-' (d ∷ ds ++ rest) line column
      ≡ number_token (b'-' ∷ d ∷ ds) rest line column (some (negsuc k))
unfolding lex_round lex_number literal_value punctuation is_digit
minus-Reads d ds rest line column k digits value small stop =
    let hex = no_hex_prefix d ds rest digits.1 stop in
    let taken =
      span-append is_alnum (d ∷ ds) rest (digits-alnum (d ∷ ds) digits) (alnum_stops rest stop) in
    let read = stoll-digits true (d ∷ ds) (suc k) (λ q. cc) value in
    let fits : leb (suc k) (2 ^ 63) ≡ true = ground arith in
    rw (digits.0, hex, taken, read, fits) refl
