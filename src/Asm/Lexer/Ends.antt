-- ===== src/Asm/Lexer/Ends.antt =====
-- What src/asm/lexer.cpp can end with: tokens closed by one End token, or one of its exceptions.
use mathlib.Core.Path.{subst}
use mathlib.Core.List.{append_assoc}
use pipeline_lab.Prelude.{
  ℕ, zero, suc, ◌≤◌, ◌<◌, ◌≡◌, refl, sym, ap, ◌∙◌, arith, List, [], ◌∷◌, ◌++◌, length, drop, All,
  All-append, Bool, Bool-cases, inl, inr, true, false, ◌||◌, ◌&&◌, ◌==◌, Option, some, none, Yields,
  Yields->>=, Yields-if, Yields-option, if◌then◌else◌, if-true, if-false, length-drop,
}
use pipeline_lab.Prelude.Int.{ℤ}
use pipeline_lab.Asm.Program.{Text}
use pipeline_lab.Asm.Token.{TokenKind, end_of_input, Token, same_kind}
use pipeline_lab.Asm.Lexer.{
  LexReason, out_of_fuel, LexError, LexState, span, is_alnum, is_digit, is_ident_char,
  is_ident_start, is_sign, next_is, is_hex_prefix, number_token, lex_number, lex_word, punctuation,
  lex_round, lex_loop, tokenize, word_kind, is_alpha,
}

abbrev pub ran_out : LexReason → Bool
ran_out out_of_fuel = true
ran_out _ = false

-- An exception of the code.
abbrev pub Refused : LexError → Type 0
Refused e = ran_out e.reason ≡ false

abbrev pub NotEnd : Token → Type 0
NotEnd tok = same_kind tok.kind end_of_input ≡ false

-- A round pushes no End token and leaves at most `n` bytes.
abbrev Round : ℕ → List Token × LexState → Type 0
Round n (pushed, s) = All NotEnd pushed × (length s.rest ≤ n)

le_trans : {a b c : ℕ} → a ≤ b → b ≤ c → a ≤ c
le_trans h k = omega arith

span-le : (test : ℕ → Bool) (cs : Text) → length (span test cs).1 ≤ length cs
unfolding span
span-le test [] = omega arith
span-le test (c ∷ cs) = elim (Bool-cases (test c)) [
  | inl t ↦ rw t (omega (arith, span-le test cs))
  | inr t ↦ rw t (omega arith)
]

span-lt :
    (test : ℕ → Bool) (c : ℕ) (cs : Text)
    → test c ≡ true
    → length (span test (c ∷ cs)).1 ≤ length cs
unfolding span
span-lt test c cs t = rw t (span-le test cs)

drop-le : (n : ℕ) (cs : Text) → length (drop n cs) ≤ length cs
drop-le n cs = omega (arith, length-drop n cs)

digit_alnum : (c : ℕ) → is_digit c ≡ true → is_alnum c ≡ true
unfolding is_digit is_alnum is_alpha
digit_alnum c h = ground arith

-- A literal is at least one byte long.
literal_left :
    (c : ℕ) (cs : Text)
    → (is_digit c || is_sign c) ≡ true
    → length
        (span is_alnum (
          drop
            (if is_hex_prefix (if is_sign c then cs else c ∷ cs) then 2 else 0)
            (if is_sign c then cs else c ∷ cs))).1
      ≤ length cs
literal_left c cs starts = elim (Bool-cases (is_sign c)) [
  | inl sign ↦
      subst (λ b. length (span is_alnum (drop (if is_hex_prefix b then 2 else 0) b)).1 ≤ length cs)
        (sym (if-true cs (c ∷ cs) sign)) (le_trans (span-le is_alnum _) (drop-le _ cs))
  | inr no_sign ↦
      subst (λ b. length (span is_alnum (drop (if is_hex_prefix b then 2 else 0) b)).1 ≤ length cs)
        (sym (if-false cs (c ∷ cs) no_sign))
        (elim (Bool-cases (is_hex_prefix (c ∷ cs))) [
          | inl hex ↦
              subst (λ k. length (span is_alnum (drop k (c ∷ cs))).1 ≤ length cs)
                (sym (if-true 2 0 hex)) (le_trans (span-le is_alnum (drop 1 cs)) (drop-le 1 cs))
          | inr decimal ↦
              subst (λ k. length (span is_alnum (drop k (c ∷ cs))).1 ≤ length cs)
                (sym (if-false 2 0 decimal)) (span-lt is_alnum c cs (digit_alnum c (ground arith)))
        ])
]

number_token-Yields :
    (text rest : Text) (line column n : ℕ) (value : Option ℤ)
    → length rest ≤ n
    → Yields Refused (Round n) (number_token text rest line column value)
unfolding number_token same_kind
number_token-Yields text rest line column n none left = refl
number_token-Yields text rest line column n (some value) left = ((refl, tt), left)

lex_number-Yields :
    (c : ℕ) (cs : Text) (line column : ℕ)
    → (is_digit c || is_sign c) ≡ true
    → Yields Refused (Round (length cs)) (lex_number c cs line column)
unfolding lex_number
lex_number-Yields c cs line column starts =
    number_token-Yields _ _ line column (length cs) _ (literal_left c cs starts)

word_goes_on : (index : Option ℕ) → same_kind (word_kind index) end_of_input ≡ false
unfolding word_kind same_kind
word_goes_on none = refl
word_goes_on (some index) = refl

lex_word-Round :
    (c : ℕ) (cs : Text) (line column : ℕ) → Round (length cs) (lex_word c cs line column)
unfolding lex_word
lex_word-Round c cs line column = ((word_goes_on _, tt), span-le is_ident_char cs)

punctuation_goes_on :
    (c : ℕ) (kind : TokenKind) → punctuation c ≡ some kind → same_kind kind end_of_input ≡ false
unfolding punctuation same_kind
punctuation_goes_on c kind h = ground arith

lex_round-Yields :
    (c : ℕ) (cs : Text) (line column : ℕ)
    → Yields Refused (Round (length cs)) (lex_round c cs line column)
unfolding lex_round same_kind
lex_round-Yields c cs line column =
    Yields-if Refused (Round (length cs)) (c == 10) _ _ (λ _. ((refl, tt), omega arith))
      λ _.
        Yields-if Refused (Round (length cs)) (c == b' ' || c == 9 || c == 13) _ _
          (λ _. (tt, omega arith))
          λ _.
            Yields-if Refused (Round (length cs)) (c == b';') _ _ (λ _. (tt, span-le _ cs))
              λ _.
                Yields-option Refused (Round (length cs)) (punctuation c) _ _
                  (Yields-if Refused (Round (length cs))
                    (is_digit c || (is_sign c && next_is is_digit cs)) _ _
                    (λ starts. lex_number-Yields c cs line column (ground arith))
                    λ _.
                      Yields-if Refused (Round (length cs)) (is_ident_start c) _ _
                        (λ _. lex_word-Round c cs line column) (λ _. refl))
                  (λ kind found. ((punctuation_goes_on c kind found, tt), omega arith))

-- Tokens of other kinds, and one End token after them.
pub record Closed (tokens : List Token) : Type 0 where
  pub before : List Token
  pub end : Token
  pub parts : tokens ≡ before ++ end ∷ []
  pub is_end : end.kind ≡ end_of_input
  pub others : All NotEnd before

Closed-append : (xs ys : List Token) → All NotEnd xs → Closed ys → Closed (xs ++ ys)
Closed-append xs ys h closed = record {
  before = xs ++ closed.before;
  end = closed.end;
  parts = ap (λ t. xs ++ t) closed.parts ∙ sym (append_assoc xs closed.before (closed.end ∷ []));
  is_end = closed.is_end;
  others = All-append NotEnd xs closed.before h closed.others;
}

lex_loop-Yields :
    (fuel : ℕ) (cs : Text) (line column : ℕ)
    → length cs < fuel
    → Yields Refused Closed (lex_loop fuel cs line column)
unfolding lex_loop
lex_loop-Yields zero cs line column enough = absurd (omega arith)
lex_loop-Yields (suc fuel) [] line column enough = record {
  before = [];
  end = _;
  parts = refl;
  is_end = refl;
  others = tt;
}
lex_loop-Yields (suc fuel) (c ∷ cs) line column enough =
    Yields->>= Refused (Round (length cs)) Closed (lex_round c cs line column) _
      (lex_round-Yields c cs line column)
      λ (pushed, s) (others, left).
        Yields->>= Refused Closed Closed (lex_loop fuel s.rest s.line s.column) _
          (lex_loop-Yields fuel s.rest s.line s.column (omega arith))
          λ tokens closed. Closed-append pushed tokens others closed

-- The lexer ends: with tokens of which the last is an End token and no other one is, or with one of
-- the exceptions of the code.
pub tokenize-Yields : (source : Text) → Yields Refused Closed (tokenize source)
unfolding tokenize
tokenize-Yields source = lex_loop-Yields (suc (length source)) source 1 1 (omega arith)
