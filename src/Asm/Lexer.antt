-- ===== src/Asm/Lexer.antt =====
-- src/asm/lexer.cpp: tokens from the bytes of the source. A round of the loop reads one token or
-- skips; `std::stoll` on a whole literal is written out. A register index past 64 bits, whose
-- overflow C++ leaves undefined, is kept whole.
pub mod Ends
pub mod Decimal
use pipeline_lab.Prelude.{
  ℕ, zero, suc, ◌+◌, ◌-◌, ◌*◌, ◌^◌, List, [], ◌∷◌, ◌++◌, length, take, drop, Bool, true, false, not,
  ◌||◌, ◌&&◌, leb, ◌==◌, if◌then◌else◌, Option, none, some, Result, ok, err, ◌>>=◌,
}
use pipeline_lab.Prelude.Text.{codes}
use pipeline_lab.Prelude.Int.{ℤ, pos, negsuc}
use pipeline_lab.Asm.Program.{Text}
use pipeline_lab.Asm.Token.{
  TokenKind, identifier, register_name, number, comma, colon, lparen, rparen, newline, end_of_input,
  Token,
}

-- Why the lexer throws; `out_of_fuel` is no exception of the code.
pub data LexReason : Type 0 where
  invalid_number : Text → LexReason
  unexpected_character : ℕ → LexReason
  out_of_fuel : LexReason

pub record LexError : Type 0 where
  pub reason : LexReason
  pub line : ℕ

-- What is left of `src_`, and the position.
pub record LexState : Type 0 where
  pub rest : Text
  pub line : ℕ
  pub column : ℕ

-- `std::isdigit`, `std::isalpha` and `std::isalnum` in the C locale.
unfoldable pub is_digit : ℕ → Bool
is_digit c = leb b'0' c && leb c b'9'

unfoldable pub is_alpha : ℕ → Bool
is_alpha c = (leb b'a' c && leb c b'z') || (leb b'A' c && leb c b'Z')

unfoldable pub is_alnum : ℕ → Bool
unfolding is_digit is_alpha
is_alnum c = is_alpha c || is_digit c

unfoldable pub is_ident_start : ℕ → Bool
unfolding is_alpha
is_ident_start c = is_alpha c || c == b'_' || c == b'.'

unfoldable pub is_ident_char : ℕ → Bool
unfolding is_alnum
is_ident_char c = is_alnum c || c == b'_' || c == b'.'

-- The longest prefix whose bytes pass the test, and the rest.
unfoldable pub span : (ℕ → Bool) → Text → Text × Text
span test [] = ([], [])
span test (c ∷ cs) =
    let (taken, rest) = span test cs in if test c then (c ∷ taken, rest) else ([], c ∷ cs)

-- The value of a digit in base 10 or 16.
unfoldable pub digit_value : Bool → ℕ → Option ℕ
unfolding is_digit
digit_value hex c =
    if is_digit c
    then some (c - b'0')
    else if hex && leb b'a' c && leb c b'f'
    then some (c - b'a' + 10)
    else if hex && leb b'A' c && leb c b'F'
    then some (c - b'A' + 10)
    else none

-- The digits after those whose value is `acc`; none if one of them is no digit.
unfoldable pub digits_value : Bool → ℕ → Text → Option ℕ
digits_value hex acc [] = some acc
digits_value hex acc (c ∷ cs) = elim (digit_value hex c) [
  | some d ↦ digits_value hex (acc * (if hex then 16 else 10) + d) cs
  | none ↦ none
]

-- The index of a register name: `r` and at least one decimal digit.
unfoldable pub register_name_index : Text → Option ℕ
unfolding digits_value digit_value
register_name_index [] = none
register_name_index (c ∷ cs) = elim cs [
  | [] ↦ none
  | d ∷ ds ↦ if c == b'r' then digits_value false 0 (d ∷ ds) else none
]

abbrev pub is_sign : ℕ → Bool
is_sign c = c == b'-' || c == b'+'

-- Whether the byte satisfies the test, and there is one.
abbrev pub next_is : (ℕ → Bool) → Text → Bool
next_is test [] = false
next_is test (c ∷ _) = test c

-- The literal's value, if it is a `long long`.
unfoldable pub literal_value : Bool → ℕ → Option ℤ
literal_value negative n =
    if negative
    then (if leb n (2 ^ 63) then some (elim n [ zero ↦ pos 0 | suc k ↦ negsuc k ]) else none)
    else (if leb n (2 ^ 63 - 1) then some (pos n) else none)

abbrev pub is_hex_prefix : Text → Bool
is_hex_prefix [] = false
is_hex_prefix (c ∷ cs) = c == b'0' && next_is (λ x. x == b'x' || x == b'X') cs

-- `std::stoll` on the digits of a literal, which has to consume all of them.
unfoldable pub stoll : Bool → Bool → Text → Option ℤ
unfolding digits_value digit_value literal_value
stoll negative hex [] = none
stoll negative hex (c ∷ cs) = elim (digits_value hex 0 (c ∷ cs)) [
  | some n ↦ literal_value negative n
  | none ↦ none
]

-- The token of a literal, by the value that `std::stoll` finds.
unfoldable pub number_token :
    Text → Text → ℕ → ℕ → Option ℤ → Result LexError (List Token × LexState)
number_token text rest line column none = err (record { reason = invalid_number text; line = line })
number_token text rest line column (some value) = ok (
  record { kind = number; text = text; value = value; line = line; column = column } ∷ [],
  record { rest = rest; line = line; column = column + length text },
)

-- A number literal, whose first byte is a sign or a digit.
unfoldable pub lex_number : ℕ → Text → ℕ → ℕ → Result LexError (List Token × LexState)
unfolding span is_alnum stoll number_token
lex_number c cs line column =
    let sign = if is_sign c then c ∷ [] else [] in
    let body = if is_sign c then cs else c ∷ cs in
    let hex = is_hex_prefix body in
    let prefix = if hex then 2 else 0 in
    let (digits, rest) = span is_alnum (drop prefix body) in
    let text = sign ++ take prefix body ++ digits in
    number_token text rest line column (stoll (c == b'-') hex digits)

-- The kind and the value of a word, by its index as a register name.
unfoldable pub word_kind : Option ℕ → TokenKind
word_kind (some index) = register_name
word_kind none = identifier

unfoldable pub word_value : Option ℕ → ℤ
word_value (some index) = pos index
word_value none = pos 0

-- An identifier or a register name, whose first byte is `c`.
unfoldable pub lex_word : ℕ → Text → ℕ → ℕ → List Token × LexState
unfolding span is_ident_char register_name_index word_kind word_value
lex_word c cs line column =
    let (taken, rest) = span is_ident_char cs in
    let text = c ∷ taken in
    let index = register_name_index text in
    (
      record {
        kind = word_kind index;
        text = text;
        value = word_value index;
        line = line;
        column = column;
      }
          ∷ [],
      record { rest = rest; line = line; column = column + length text },
    )

unfoldable pub punctuation : ℕ → Option TokenKind
punctuation c =
    if c == b','
    then some comma
    else if c == b':'
    then some colon
    else if c == b'('
    then some lparen
    else if c == b')'
    then some rparen
    else none

-- One round of the loop at the byte `c`: the token that it pushes, if any, and the state after it.
unfoldable pub lex_round : ℕ → Text → ℕ → ℕ → Result LexError (List Token × LexState)
unfolding lex_number lex_word punctuation is_ident_start is_digit span
lex_round c cs line column =
    if c == 10
    then ok (
      record { kind = newline; text = codes "\\n"; value = pos 0; line = line; column = column }
          ∷ [],
      record { rest = cs; line = line + 1; column = 1 },
    )
    else if c == b' ' || c == 9 || c == 13
    then ok ([], record { rest = cs; line = line; column = column + 1 })
    else if c == b';'
    then (let (skipped, rest) = span (λ x. not (x == 10)) cs in
        ok ([], record { rest = rest; line = line; column = column + 1 + length skipped }))
    else elim (punctuation c) [
      | some kind ↦ ok (
        record { kind = kind; text = c ∷ []; value = pos 0; line = line; column = column } ∷ [],
        record { rest = cs; line = line; column = column + 1 },
      )
      | none ↦
          if is_digit c || (is_sign c && next_is is_digit cs)
          then lex_number c cs line column
          else if is_ident_start c
          then ok (lex_word c cs line column)
          else err (record { reason = unexpected_character c; line = line })
    ]

unfoldable pub lex_loop : ℕ → Text → ℕ → ℕ → Result LexError (List Token)
lex_loop zero cs line column = err (record { reason = out_of_fuel; line = line })
lex_loop (suc fuel) [] line column =
    ok (record { kind = end_of_input; text = []; value = pos 0; line = line; column = column } ∷ [])
lex_loop (suc fuel) (c ∷ cs) line column = do
  (pushed, s) ← lex_round c cs line column
  tokens ← lex_loop fuel s.rest s.line s.column
  ok (pushed ++ tokens)

-- Every round passes a byte.
unfoldable pub tokenize : Text → Result LexError (List Token)
unfolding lex_loop
tokenize source = lex_loop (suc (length source)) source 1 1
