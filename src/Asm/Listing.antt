-- ===== src/Asm/Listing.antt =====
-- Source texts as lists of pieces, with the tokens that src/asm/lexer.cpp is to find in them.
pub mod Rounds
pub mod Lexed
pub mod Items
pub mod Parsed
pub mod Statements
pub mod Lines
pub mod Printed
pub mod Instructions
pub mod Translated
pub mod Assembled
use pipeline_lab.Prelude.{
  ℕ, ◌+◌, ◌-◌, ◌^◌, ◌≤◌, ◌≡◌, List, [], ◌∷◌, ◌++◌, length, All, Bool, true, false, not, ◌==◌,
}
use pipeline_lab.Prelude.Text.{codes, signed_decimal}
use pipeline_lab.Prelude.Int.{ℤ, pos, pos_part, neg_part}
use pipeline_lab.Asm.Program.{Text}
use pipeline_lab.Asm.Token.{
  TokenKind, number, comma, colon, lparen, rparen, newline, end_of_input, Token,
}
use pipeline_lab.Asm.Lexer.{
  is_ident_start, is_ident_char, register_name_index, word_kind, word_value, next_is,
}

-- The four marks.
pub data Mark : Type 0 where
  comma_mark colon_mark open_mark close_mark : Mark

abbrev pub mark_code : Mark → ℕ
mark_code comma_mark = b','
mark_code colon_mark = b':'
mark_code open_mark = b'('
mark_code close_mark = b')'

abbrev pub mark_kind : Mark → TokenKind
mark_kind comma_mark = comma
mark_kind colon_mark = colon
mark_kind open_mark = lparen
mark_kind close_mark = rparen

-- A word is a name or a register, a literal is a number in decimal.
pub data Piece : Type 0 where
  word : ℕ → Text → Piece
  literal : ℤ → Piece
  mark : Mark → Piece
  blank line_break : Piece
  comment : Text → Piece

unfoldable pub piece_text : Piece → Text
unfolding signed_decimal
piece_text (word c cs) = c ∷ cs
piece_text (literal v) = signed_decimal v
piece_text (mark m) = mark_code m ∷ []
piece_text blank = b' ' ∷ []
piece_text line_break = 10 ∷ []
piece_text (comment cs) = b';' ∷ cs

unfoldable pub render : List Piece → Text
unfolding piece_text
render [] = []
render (p ∷ ps) = piece_text p ++ render ps

-- The token of a piece at a position, if it has one.
unfoldable pub piece_tokens : Piece → ℕ → ℕ → List Token
unfolding register_name_index word_kind word_value signed_decimal
piece_tokens (word c cs) line column =
    record {
      kind = word_kind (register_name_index (c ∷ cs));
      text = c ∷ cs;
      value = word_value (register_name_index (c ∷ cs));
      line = line;
      column = column;
    }
    ∷ []
piece_tokens (literal v) line column =
    record { kind = number; text = signed_decimal v; value = v; line = line; column = column } ∷ []
piece_tokens (mark m) line column =
    record {
      kind = mark_kind m;
      text = mark_code m ∷ [];
      value = pos 0;
      line = line;
      column = column;
    }
    ∷ []
piece_tokens blank line column = []
piece_tokens line_break line column =
    record { kind = newline; text = codes "\\n"; value = pos 0; line = line; column = column } ∷ []
piece_tokens (comment cs) line column = []

-- The position behind a piece.
abbrev pub line_after : Piece → ℕ → ℕ
line_after line_break line = line + 1
line_after _ line = line

unfoldable pub column_after : Piece → ℕ → ℕ
unfolding piece_text
column_after line_break column = 1
column_after p column = column + length (piece_text p)

-- The tokens of the pieces, each at its own line and column, and the End token behind them.
unfoldable pub tokens_from : List Piece → ℕ → ℕ → List Token
unfolding piece_tokens column_after
tokens_from [] line column =
    record { kind = end_of_input; text = []; value = pos 0; line = line; column = column } ∷ []
tokens_from (p ∷ ps) line column =
    piece_tokens p line column ++ tokens_from ps (line_after p line) (column_after p column)

-- A word has the bytes of a name, a literal is in the range of a `long long`, and a comment stays on
-- its line.
abbrev pub IsPiece : Piece → Type 0
IsPiece (word c cs) = (is_ident_start c ≡ true) × All (λ x. is_ident_char x ≡ true) cs
IsPiece (literal v) = (pos_part v ≤ 2 ^ 63 - 1) × (neg_part v ≤ 2 ^ 63)
IsPiece (comment cs) = All (λ x. not (x == 10) ≡ true) cs
IsPiece _ = Unit

-- What stands behind a piece does not belong to it.
abbrev pub Ends : Piece → Text → Type 0
Ends (word _ _) rest = next_is is_ident_char rest ≡ false
Ends (literal _) rest = next_is is_ident_char rest ≡ false
Ends (comment _) rest = next_is (λ x. not (x == 10)) rest ≡ false
Ends _ rest = Unit

abbrev pub IsSource : List Piece → Type 0
IsSource [] = Unit
IsSource (p ∷ ps) = IsPiece p × Ends p (render ps) × IsSource ps
