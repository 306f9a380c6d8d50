-- ===== src/Asm/Listing/Printed.antt =====
-- The lexer and the parser of src/asm on a printed source text.
use pipeline_lab.Prelude.{ℕ, ◌≡◌, refl, arith, List, [], ◌∷◌, All, true, false, not, ◌==◌, ok}
use pipeline_lab.Prelude.Text.{decimal}
use pipeline_lab.Asm.Program.{Text}
use pipeline_lab.Asm.Token.{Token}
use pipeline_lab.Asm.Lexer.{
  is_digit, is_alnum, is_ident_char, is_ident_start, is_alpha, next_is, tokenize,
}
use pipeline_lab.Asm.Lexer.Decimal.{IsDigit, decimal-All}
use pipeline_lab.Asm.Parser.{parse}
use pipeline_lab.Asm.Listing.{
  Mark, comma_mark, colon_mark, open_mark, close_mark, Piece, mark, blank, line_break, piece_text,
  render, tokens_from, IsPiece, IsSource,
}
use pipeline_lab.Asm.Listing.Lexed.{tokenize-render}
use pipeline_lab.Asm.Listing.Items.{
  Arg, register_arg, immediate_arg, label_arg, memory_arg, base_arg, Item, label_item,
  instruction_item, comment_item, register_piece, arg_pieces, args_pieces, item_pieces,
  items_pieces, source_text, statements_from, IsArg, IsItem,
}
use pipeline_lab.Asm.Listing.Lines.{parse-items}

-- The text goes on with a byte that no word or literal has.
abbrev Apart : List Piece → Type 0
Apart ps = next_is is_ident_char (render ps) ≡ false

digits-ident : (s : Text) → All IsDigit s → All (λ c. is_ident_char c ≡ true) s
unfolding is_ident_char is_alnum is_digit
digits-ident [] h = tt
digits-ident (c ∷ s) h = (ground arith, digits-ident s h.1)

register_piece-IsPiece : (r : ℕ) → IsPiece (register_piece r)
unfolding register_piece is_ident_start is_alpha
register_piece-IsPiece r = (refl, digits-ident (decimal r) (decimal-All r))

register-IsSource :
    (r : ℕ) (more : List Piece) → Apart more → IsSource more → IsSource (register_piece r ∷ more)
unfolding register_piece
register-IsSource r more stop h = (register_piece-IsPiece r, stop, h)

mark-Apart : (m : Mark) (more : List Piece) → Apart (mark m ∷ more)
unfolding render piece_text is_ident_char is_alnum is_alpha is_digit
mark-Apart comma_mark more = refl
mark-Apart _ more = refl

blank-Apart : (more : List Piece) → Apart (blank ∷ more)
unfolding render piece_text is_ident_char is_alnum is_alpha is_digit
blank-Apart more = refl

break-Apart : (more : List Piece) → Apart (line_break ∷ more)
unfolding render piece_text is_ident_char is_alnum is_alpha is_digit
break-Apart more = refl

base-IsSource :
    (r : ℕ) (more : List Piece)
    → IsSource more
    → IsSource (mark open_mark ∷ register_piece r ∷ mark close_mark ∷ more)
base-IsSource r more h =
    (tt, tt, register-IsSource r (mark close_mark ∷ more) (mark-Apart close_mark more) (tt, tt, h))

arg-IsSource :
    (a : Arg) (more : List Piece)
    → IsArg a
    → Apart more
    → IsSource more
    → IsSource (arg_pieces a more)
arg-IsSource (register_arg r) more h stop rest = register-IsSource r more stop rest
arg-IsSource (immediate_arg v) more h stop rest = (h, stop, rest)
arg-IsSource (label_arg c cs) more h stop rest = (h.0, stop, rest)
arg-IsSource (memory_arg d r) more h stop rest =
    (h.0, mark-Apart open_mark _, base-IsSource r more rest)
arg-IsSource (base_arg r) more h stop rest = base-IsSource r more rest

args-IsSource :
    (a : Arg) (bs : List Arg) (more : List Piece)
    → IsArg a
    → All IsArg bs
    → Apart more
    → IsSource more
    → IsSource (args_pieces a bs more)
args-IsSource a [] more h hs stop rest = arg-IsSource a more h stop rest
args-IsSource a (b ∷ bs) more h hs stop rest =
    arg-IsSource a (mark comma_mark ∷ blank ∷ args_pieces b bs more) h (mark-Apart comma_mark _)
      (tt, tt, (tt, tt, args-IsSource b bs more hs.0 hs.1 stop rest))

comment_stops :
    (more : List Piece) → next_is (λ x. not (x == 10)) (render (line_break ∷ more)) ≡ false
unfolding render piece_text
comment_stops more = refl

item-IsSource :
    (i : Item) (more : List Piece) → IsItem i → IsSource more → IsSource (item_pieces i more)
item-IsSource (label_item c cs) more h rest =
    (h.0, mark-Apart colon_mark _, (tt, tt, (tt, tt, rest)))
item-IsSource (instruction_item c cs []) more h rest = (h.0.0, break-Apart more, (tt, tt, rest))
item-IsSource (instruction_item c cs (a ∷ bs)) more h rest = (
  h.0.0,
  blank-Apart _,
  (tt, tt, args-IsSource a bs (line_break ∷ more) h.1.0 h.1.1 (break-Apart more) (tt, tt, rest)),
)
item-IsSource (comment_item cs) more h rest = (h, comment_stops more, (tt, tt, rest))

items-IsSource : (items : List Item) → All IsItem items → IsSource (items_pieces items)
items-IsSource [] h = tt
items-IsSource (i ∷ items) (h, hs) =
    item-IsSource i (items_pieces items) h (items-IsSource items hs)

-- A printed source text reads back: if its names are names, its registers exist, and its numbers fit
-- a `long long`, then the lexer ends with tokens in which the parser finds the statements of the
-- lines, each with the number of its line.
pub parse-source_text :
    (items : List Item)
    → All IsItem items
    → (tokens : List Token) × (tokenize (source_text items) ≡ ok tokens)
      × (parse tokens ≡ ok (statements_from 1 items))
unfolding source_text
parse-source_text items h = (
  tokens_from (items_pieces items) 1 1,
  tokenize-render (items_pieces items) (items-IsSource items h),
  parse-items items h,
)
