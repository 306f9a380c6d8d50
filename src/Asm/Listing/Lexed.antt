-- ===== src/Asm/Listing/Lexed.antt =====
-- `tokenize` of src/asm/lexer.cpp on a text given by its pieces.
use mathlib.Core.Path.{subst}
use pipeline_lab.Prelude.{
  ℕ, zero, suc, ◌<◌, ◌≡◌, refl, sym, ap, ◌∙◌, arith, List, [], ◌∷◌, ◌++◌, length, length-append,
  All, false, not, ◌==◌, some, ok, ◌>>=◌,
}
use pipeline_lab.Prelude.Text.{decimal, signed_decimal}
use pipeline_lab.Prelude.Int.{ℤ, pos, negsuc}
use pipeline_lab.Asm.Program.{Text}
use pipeline_lab.Asm.Lexer.{
  is_ident_char, digits_value, next_is, number_token, punctuation, lex_round, lex_loop, tokenize,
}
use pipeline_lab.Asm.Lexer.Decimal.{IsDigit, span-append, decimal-All, decimal-some, decimal-value}
use pipeline_lab.Asm.Listing.{
  Mark, comma_mark, mark_code, Piece, word, literal, mark, blank, line_break, comment, piece_text,
  render, piece_tokens, line_after, column_after, tokens_from, IsPiece, Ends, IsSource,
}
use pipeline_lab.Asm.Listing.Rounds.{ReadsPiece, word-Reads, plain-Reads, minus-Reads}

-- The first byte of a piece, and the others.
record Opens (p : Piece) (rest : Text) : Type 0 where
  first : ℕ
  others : Text
  text : piece_text p ++ rest ≡ first ∷ others
  some_text : 0 < length (piece_text p)
  reads : (line column : ℕ) → ReadsPiece p rest line column first others

literal_token :
    (v : ℤ) (rest : Text) (line column : ℕ)
    → number_token (signed_decimal v) rest line column (some v)
      ≡ ok (
        piece_tokens (literal v) line column,
        record { rest = rest; line = line; column = column_after (literal v) column },
      )
unfolding number_token piece_tokens column_after piece_text
literal_token v rest line column = refl

literal-Opens :
    (v : ℤ) (rest : Text)
    → IsPiece (literal v)
    → next_is is_ident_char rest ≡ false
    → Opens (literal v) rest
unfolding piece_text signed_decimal
literal-Opens (pos n) rest (small, _) stop = go (decimal n) refl
  where
    go : (s : Text) → decimal n ≡ s → Opens (literal (pos n)) rest
    go [] e = absurd (decimal-some n e)
    go (c ∷ cs) e = record {
      first = c;
      others = cs ++ rest;
      text = rw e refl;
      some_text = rw e (omega arith);
      reads = λ line column.
          plain-Reads c cs rest line column n (subst (All IsDigit) e (decimal-All n))
            (ap (digits_value false 0) (sym e) ∙ decimal-value n) small stop
          ∙ ap (λ s. number_token s rest line column (some (pos n))) (sym e)
          ∙ literal_token (pos n) rest line column;
    }
literal-Opens (negsuc k) rest (_, small) stop = go (decimal (suc k)) refl
  where
    go : (s : Text) → decimal (suc k) ≡ s → Opens (literal (negsuc k)) rest
    go [] e = absurd (decimal-some (suc k) e)
    go (c ∷ cs) e = record {
      first = b'-';
      others = c ∷ cs ++ rest;
      text = rw e refl;
      some_text = rw e (omega arith);
      reads = λ line column.
          minus-Reads c cs rest line column k (subst (All IsDigit) e (decimal-All (suc k)))
            (ap (digits_value false 0) (sym e) ∙ decimal-value (suc k)) small stop
          ∙ ap (λ s. number_token (b'-' ∷ s) rest line column (some (negsuc k))) (sym e)
          ∙ literal_token (negsuc k) rest line column;
    }

comment-Reads :
    (cs rest : Text) (line column : ℕ)
    → IsPiece (comment cs)
    → next_is (λ x. not (x == 10)) rest ≡ false
    → ReadsPiece (comment cs) rest line column b';' (cs ++ rest)
unfolding lex_round piece_tokens column_after piece_text
comment-Reads cs rest line column inside stop =
    let taken = span-append (λ x. not (x == 10)) cs rest inside stop in
    rw taken
      (ap (λ (k : ℕ). ok ([], record { rest = rest; line = line; column = k })) (omega arith))

mark-Reads :
    (m : Mark) (rest : Text) (line column : ℕ)
    → ReadsPiece (mark m) rest line column (mark_code m) rest
unfolding lex_round piece_tokens column_after piece_text punctuation
mark-Reads comma_mark rest line column = refl
mark-Reads _ rest line column = refl

piece-Opens : (p : Piece) (rest : Text) → IsPiece p → Ends p rest → Opens p rest
unfolding piece_text lex_round piece_tokens column_after punctuation
piece-Opens (word c cs) rest h stop = record {
  first = c;
  others = cs ++ rest;
  text = refl;
  some_text = omega arith;
  reads = λ line column. word-Reads c cs rest line column h stop;
}
piece-Opens (literal v) rest h stop = literal-Opens v rest h stop
piece-Opens (mark m) rest h stop = record {
  first = mark_code m;
  others = rest;
  text = refl;
  some_text = omega arith;
  reads = λ line column. mark-Reads m rest line column;
}
piece-Opens blank rest h stop = record {
  first = b' ';
  others = rest;
  text = refl;
  some_text = omega arith;
  reads = λ line column. refl;
}
piece-Opens line_break rest h stop = record {
  first = 10;
  others = rest;
  text = refl;
  some_text = omega arith;
  reads = λ line column. refl;
}
piece-Opens (comment cs) rest h stop = record {
  first = b';';
  others = cs ++ rest;
  text = refl;
  some_text = omega arith;
  reads = λ line column. comment-Reads cs rest line column h stop;
}

lex_loop-render :
    (ps : List Piece) (fuel line column : ℕ)
    → IsSource ps
    → length (render ps) < fuel
    → lex_loop fuel (render ps) line column ≡ ok (tokens_from ps line column)
unfolding lex_loop render tokens_from
lex_loop-render ps zero line column h enough = absurd (omega arith)
lex_loop-render [] (suc fuel) line column h enough = refl
lex_loop-render (p ∷ ps) (suc fuel) line column (piece, ends, more) enough =
    let o = piece-Opens p (render ps) piece ends in
    let shorter : length (render ps) < fuel =
      omega (arith, enough, length-append (piece_text p) (render ps), o.some_text) in
    let rest = lex_loop-render ps fuel (line_after p line) (column_after p column) more shorter in
    ap (λ s. lex_loop (suc fuel) s line column) o.text
    ∙ ap
        (λ r. r >>= λ (pushed, s).
          lex_loop fuel s.rest s.line s.column >>= λ tokens. ok (pushed ++ tokens))
        (o.reads line column)
    ∙ ap (λ r. r >>= λ tokens. ok (piece_tokens p line column ++ tokens)) rest

pub tokenize-render :
    (ps : List Piece) → IsSource ps → tokenize (render ps) ≡ ok (tokens_from ps 1 1)
unfolding tokenize
tokenize-render ps h = lex_loop-render ps (suc (length (render ps))) 1 1 h (omega arith)
