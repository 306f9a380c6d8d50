-- ===== src/Asm/Listing/Parsed.antt =====
-- `parse` of src/asm/parser.cpp on the tokens of a text given by its lines.
use pipeline_lab.Prelude.{
  ℕ, zero, suc, ◌+◌, ◌%◌, ◌<◌, ◌≡◌, refl, sym, ap, ◌∙◌, arith, List, [], ◌∷◌, map, length, All,
  true, false, not, ◌||◌, some, Result, ok,
}
use pipeline_lab.Prelude.Text.{decimal, signed_decimal}
use pipeline_lab.Prelude.Int.{ℤ, pos, ltb_ℤ}
use pipeline_lab.Words.{to_word}
use pipeline_lab.Asm.Program.{Text}
use pipeline_lab.Asm.Token.{identifier, register_name, number, lparen, Token, same_kind}
use pipeline_lab.Asm.Lexer.{register_name_index, word_kind, word_value, digits_value}
use pipeline_lab.Asm.Lexer.Decimal.{decimal-some, decimal-value}
use pipeline_lab.Asm.Parser.{
  ParseError, check, expect, register_index, base_register, operand_as, parse_operand,
  parse_operands,
}
use pipeline_lab.Asm.Listing.{
  comma_mark, close_mark, Piece, word, literal, mark, blank, line_break, piece_tokens, column_after,
  tokens_from,
}
use pipeline_lab.Asm.Listing.Items.{
  Arg, register_arg, immediate_arg, label_arg, memory_arg, base_arg, register_piece, arg_pieces,
  args_pieces, arg_operand, IsName, IsArg,
}

register_name_index-decimal : (r : ℕ) → register_name_index (b'r' ∷ decimal r) ≡ some r
unfolding register_name_index
register_name_index-decimal r = go (decimal r) refl
  where
    go : (s : Text) → decimal r ≡ s → register_name_index (b'r' ∷ decimal r) ≡ some r
    go [] e = absurd (decimal-some r e)
    go (d ∷ ds) e =
        ap (λ s. register_name_index (b'r' ∷ s)) e
        ∙ ap (digits_value false 0) (sym e)
        ∙ decimal-value r

register_index-small :
    (tok : Token) (r : ℕ) → tok.value ≡ pos r → r < 16 → register_index tok ≡ ok r
unfolding register_index
register_index-small tok r e small =
    let inside : not (ltb_ℤ (pos r) (pos 0) || not (ltb_ℤ (pos r) (pos 16))) ≡ true =
      ground arith in
    let kept : to_word (pos r) % 256 ≡ r = omega arith in rw (e, inside) (ap ok kept)

-- The column behind pieces that stay on their line.
unfoldable columns_after : List Piece → ℕ → ℕ
unfolding column_after
columns_after [] column = column
columns_after (p ∷ ps) column = columns_after ps (column_after p column)

-- Reads `value` off the front of the tokens, up to those of `more`.
abbrev Reads {ℓ} :
    {A : Type ℓ}
    → (List Token → Result ParseError (A × List Token))
    → (List Piece → List Piece)
    → A
    → List Piece
    → ℕ
    → Type ℓ
Reads p ps value more line =
    (column : ℕ)
    → p (tokens_from (ps more) line column)
      ≡ ok (value, tokens_from more line (columns_after (ps []) column))

-- The tokens of a register and of a name.
abbrev register_token : ℕ → ℕ → ℕ → Token
register_token r line column = record {
  kind = register_name;
  text = b'r' ∷ decimal r;
  value = pos r;
  line = line;
  column = column;
}

abbrev pub name_token : ℕ → Text → ℕ → ℕ → Token
name_token c cs line column = record {
  kind = identifier;
  text = c ∷ cs;
  value = pos 0;
  line = line;
  column = column;
}

pub tokens_from-register :
    (r : ℕ) (more : List Piece) (line column : ℕ)
    → tokens_from (register_piece r ∷ more) line column
      ≡ register_token r line column
        ∷ tokens_from more line (column_after (register_piece r) column)
unfolding tokens_from piece_tokens word_kind word_value register_piece
tokens_from-register r more line column = rw (register_name_index-decimal r) refl

pub tokens_from-name :
    (c : ℕ) (cs : Text) (more : List Piece) (line column : ℕ)
    → IsName c cs
    → tokens_from (word c cs ∷ more) line column
      ≡ name_token c cs line column ∷ tokens_from more line (column_after (word c cs) column)
unfolding tokens_from piece_tokens word_kind word_value
tokens_from-name c cs more line column h = rw (h.1) refl

base_register-Reads :
    (r : ℕ) (more : List Piece) (line : ℕ)
    → r < 16
    → Reads base_register (λ m. register_piece r ∷ mark close_mark ∷ m) r more line
unfolding base_register expect check tokens_from piece_tokens same_kind columns_after
base_register-Reads r more line small column =
    ap base_register (tokens_from-register r (mark close_mark ∷ more) line column)
    ∙ rw (register_index-small (register_token r line column) r refl small) refl

-- No parenthesis opens here.
abbrev Closes : List Piece → Type 0
Closes more = (line column : ℕ) → check lparen (tokens_from more line column) ≡ false

operand_as-number :
    (tok : Token) (toks : List Token)
    → check lparen toks ≡ false
    → operand_as number tok toks ≡ ok (arg_operand tok.line (immediate_arg tok.value), toks)
unfolding operand_as
operand_as-number tok toks h = rw (operand_as, h) refl

immediate-Reads :
    (v : ℤ) (more : List Piece) (line : ℕ)
    → Closes more
    → Reads parse_operand
        (arg_pieces (immediate_arg v))
        (arg_operand line (immediate_arg v))
        more
        line
unfolding parse_operand tokens_from piece_tokens columns_after
immediate-Reads v more line closes column =
    operand_as-number
      (record { kind = number; text = signed_decimal v; value = v; line = line; column = column })
      (tokens_from more line (column_after (literal v) column))
      (closes line (column_after (literal v) column))

parse_operand-Reads :
    (a : Arg) (more : List Piece) (line : ℕ)
    → IsArg a
    → Closes more
    → Reads parse_operand (arg_pieces a) (arg_operand line a) more line
unfolding parse_operand operand_as tokens_from piece_tokens columns_after check same_kind
parse_operand-Reads (register_arg r) more line small closes column =
    ap parse_operand (tokens_from-register r more line column)
    ∙ rw (register_index-small (register_token r line column) r refl small) refl
parse_operand-Reads (immediate_arg v) more line h closes column =
    immediate-Reads v more line closes column
parse_operand-Reads (label_arg c cs) more line h closes column =
    ap parse_operand (tokens_from-name c cs more line column h)
parse_operand-Reads (memory_arg d r) more line h closes column =
    rw (base_register-Reads r more line h.1 _) refl
parse_operand-Reads (base_arg r) more line small closes column =
    rw (base_register-Reads r more line small _) refl

comma-Closes : (more : List Piece) → Closes (mark comma_mark ∷ more)
unfolding check tokens_from piece_tokens same_kind
comma-Closes more line column = refl

break-Closes : (more : List Piece) → Closes (line_break ∷ more)
unfolding check tokens_from piece_tokens same_kind
break-Closes more line column = refl

pub parse_operands-Reads :
    (a : Arg) (bs : List Arg) (fuel : ℕ) (more : List Piece) (line : ℕ)
    → IsArg a
    → All IsArg bs
    → length bs < fuel
    → (column : ℕ)
    → (column' : ℕ) × (parse_operands fuel
          (tokens_from (args_pieces a bs (line_break ∷ more)) line column)
        ≡ ok (map (arg_operand line) (a ∷ bs), tokens_from (line_break ∷ more) line column'))
unfolding parse_operands check tokens_from piece_tokens same_kind column_after
parse_operands-Reads a bs zero more line h hs enough column = absurd (omega arith)
parse_operands-Reads a [] (suc fuel) more line h hs enough column = (
  columns_after (arg_pieces a []) column,
  rw (parse_operand-Reads a (line_break ∷ more) line h (break-Closes more) column) refl,
)
parse_operands-Reads a (b ∷ bs) (suc fuel) more line h (hb, hs) enough column =
    let rest = mark comma_mark ∷ blank ∷ args_pieces b bs (line_break ∷ more) in
    let behind = columns_after (arg_pieces a []) column in
    let (column', others) =
      parse_operands-Reads b bs fuel more line hb hs (omega arith) (behind + 1 + 1) in
    (
      column',
      rw
          (parse_operand-Reads a rest line h
            (comma-Closes (blank ∷ args_pieces b bs (line_break ∷ more))) column)
          (rw others refl),
    )
