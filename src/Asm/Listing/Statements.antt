-- ===== src/Asm/Listing/Statements.antt =====
-- How src/asm/parser.cpp reads the statement of a line.
use mathlib.Core.Path.{subst}
use pipeline_lab.Prelude.{
  ℕ, suc, ◌+◌, ◌<◌, ◌≡◌, refl, sym, arith, List, [], ◌∷◌, length, All, true, false, ok,
}
use pipeline_lab.Asm.Program.{Text}
use pipeline_lab.Asm.Token.{colon, Token, same_kind}
use pipeline_lab.Asm.Statement.{Operand, instruction, label_definition}
use pipeline_lab.Asm.Parser.{check, parse_operands, at_end_of_statement, parse_statement, to_lower}
use pipeline_lab.Asm.Listing.{
  comma_mark, colon_mark, Piece, word, literal, mark, blank, line_break, comment, piece_tokens,
  column_after, tokens_from,
}
use pipeline_lab.Asm.Listing.Items.{
  Arg, register_arg, immediate_arg, label_arg, memory_arg, base_arg, register_piece, arg_pieces,
  args_pieces, instruction_statement, IsArg,
}
use pipeline_lab.Asm.Listing.Parsed.{
  name_token, tokens_from-register, tokens_from-name, parse_operands-Reads,
}

-- How many tokens the pieces have.
abbrev piece_count : Piece → ℕ
piece_count blank = 0
piece_count (comment _) = 0
piece_count _ = 1

unfoldable pub token_count : List Piece → ℕ
token_count [] = 0
token_count (p ∷ ps) = piece_count p + token_count ps

pub length-tokens_from :
    (ps : List Piece) (line column : ℕ) → length (tokens_from ps line column) ≡ suc (token_count ps)
unfolding tokens_from piece_tokens token_count column_after
length-tokens_from [] line column = refl
length-tokens_from (blank ∷ ps) line column =
    omega (arith, length-tokens_from ps line (column_after blank column))
length-tokens_from (comment cs ∷ ps) line column =
    omega (arith, length-tokens_from ps line (column_after (comment cs) column))
length-tokens_from (word c cs ∷ ps) line column =
    omega (arith, length-tokens_from ps line (column_after (word c cs) column))
length-tokens_from (literal v ∷ ps) line column =
    omega (arith, length-tokens_from ps line (column_after (literal v) column))
length-tokens_from (mark m ∷ ps) line column =
    omega (arith, length-tokens_from ps line (column_after (mark m) column))
length-tokens_from (line_break ∷ ps) line column = omega (arith, length-tokens_from ps (line + 1) 1)

arg_pieces-count :
    (a : Arg) (more : List Piece) → token_count more < token_count (arg_pieces a more)
unfolding token_count register_piece
arg_pieces-count (register_arg r) more = omega arith
arg_pieces-count (immediate_arg r) more = omega arith
arg_pieces-count (label_arg c cs) more = omega arith
arg_pieces-count (memory_arg d r) more = omega arith
arg_pieces-count (base_arg r) more = omega arith

pub args_pieces-count :
    (a : Arg) (bs : List Arg) (more : List Piece)
    → length bs + token_count more < token_count (args_pieces a bs more)
unfolding token_count
args_pieces-count a [] more = omega (arith, arg_pieces-count a more)
args_pieces-count a (b ∷ bs) more =
    let rest = mark comma_mark ∷ blank ∷ args_pieces b bs more in
    omega (arith, arg_pieces-count a rest, args_pieces-count b bs more)

-- The first token of an operand is no colon and does not end a statement.
abbrev Goes : List Token → Type 0
Goes toks = (check colon toks ≡ false) × (at_end_of_statement toks ≡ false)

arg_pieces-Goes :
    (a : Arg) (more : List Piece) (line column : ℕ)
    → IsArg a
    → Goes (tokens_from (arg_pieces a more) line column)
unfolding check at_end_of_statement tokens_from piece_tokens same_kind
arg_pieces-Goes (register_arg r) more line column h =
    subst Goes (sym (tokens_from-register r more line column)) (refl, refl)
arg_pieces-Goes (immediate_arg v) more line column h = (refl, refl)
arg_pieces-Goes (label_arg c cs) more line column h =
    subst Goes (sym (tokens_from-name c cs more line column h)) (refl, refl)
arg_pieces-Goes (memory_arg d r) more line column h = (refl, refl)
arg_pieces-Goes (base_arg r) more line column h = (refl, refl)

args_pieces-Goes :
    (a : Arg) (bs : List Arg) (more : List Piece) (line column : ℕ)
    → IsArg a
    → Goes (tokens_from (args_pieces a bs more) line column)
args_pieces-Goes a [] more line column h = arg_pieces-Goes a more line column h
args_pieces-Goes a (b ∷ bs) more line column h = arg_pieces-Goes a _ line column h

break_ends :
    (more : List Piece) (line column : ℕ)
    → (check colon (tokens_from (line_break ∷ more) line column) ≡ false)
      × (at_end_of_statement (tokens_from (line_break ∷ more) line column) ≡ true)
unfolding check at_end_of_statement tokens_from piece_tokens same_kind
break_ends more line column = (refl, refl)

parse_statement-instruction :
    (head : Token) (toks toks' : List Token) (ops : List Operand)
    → Goes toks
    → parse_operands (length toks) toks ≡ ok (ops, toks')
    → at_end_of_statement toks' ≡ true
    → parse_statement head toks
      ≡ ok (
        record { kind = instruction; name = to_lower head.text; operands = ops; line = head.line },
        toks',
      )
unfolding parse_statement
parse_statement-instruction head toks toks' ops goes read ends =
    rw (parse_statement, goes.0, goes.1, read, ends) refl

pub instruction-Reads :
    (c : ℕ) (cs : Text) (a : Arg) (bs : List Arg) (more : List Piece) (line column start : ℕ)
    → IsArg a
    → All IsArg bs
    → (column' : ℕ) × (parse_statement
          (name_token c cs line start)
          (tokens_from (args_pieces a bs (line_break ∷ more)) line column)
        ≡ ok (
          instruction_statement line (c ∷ cs) (a ∷ bs),
          tokens_from (line_break ∷ more) line column',
        ))
unfolding instruction_statement
instruction-Reads c cs a bs more line column start h hs =
    let rest = line_break ∷ more in
    let toks = tokens_from (args_pieces a bs rest) line column in
    let enough : length bs < length toks = omega (
      arith,
      length-tokens_from (args_pieces a bs rest) line column,
      args_pieces-count a bs rest,
    ) in
    let (column', read) = parse_operands-Reads a bs (length toks) more line h hs enough column in
    (
      column',
      parse_statement-instruction (name_token c cs line start) toks _ _
          (args_pieces-Goes a bs rest line column h) read (break_ends more line column').1,
    )

-- A name alone on its line.
pub bare-Reads :
    (c : ℕ) (cs : Text) (more : List Piece) (line column start : ℕ)
    → parse_statement (name_token c cs line start) (tokens_from (line_break ∷ more) line column)
      ≡ ok (instruction_statement line (c ∷ cs) [], tokens_from (line_break ∷ more) line column)
unfolding instruction_statement parse_statement check at_end_of_statement tokens_from piece_tokens
    same_kind
bare-Reads c cs more line column start = refl

-- A label.
pub label-Reads :
    (c : ℕ) (cs : Text) (more : List Piece) (line column start : ℕ)
    → parse_statement
        (name_token c cs line start)
        (tokens_from (mark colon_mark ∷ line_break ∷ more) line column)
      ≡ ok (
        record { kind = label_definition; name = c ∷ cs; operands = []; line = line },
        tokens_from (line_break ∷ more) line (column + 1),
      )
unfolding parse_statement check tokens_from piece_tokens same_kind column_after
label-Reads c cs more line column start = refl
