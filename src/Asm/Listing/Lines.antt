-- ===== src/Asm/Listing/Lines.antt =====
-- The statements that src/asm/parser.cpp reads, line by line.
use pipeline_lab.Prelude.{
  ℕ, zero, suc, ◌+◌, ◌<◌, ◌≡◌, refl, ap, ◌∙◌, arith, List, [], ◌∷◌, length, All, ok, ◌>>=◌,
}
use pipeline_lab.Asm.Program.{Text}
use pipeline_lab.Asm.Token.{Token, same_kind}
use pipeline_lab.Asm.Statement.{Statement}
use pipeline_lab.Asm.Parser.{check, expect, parse_statement, parse_loop, parse}
use pipeline_lab.Asm.Listing.{
  colon_mark, Piece, word, mark, blank, line_break, comment, piece_tokens, column_after,
  tokens_from,
}
use pipeline_lab.Asm.Listing.Items.{
  Item, label_item, instruction_item, comment_item, args_pieces, item_pieces, items_pieces,
  item_statements, statements_from, IsName, IsItem,
}
use pipeline_lab.Asm.Listing.Parsed.{name_token, tokens_from-name}
use pipeline_lab.Asm.Listing.Statements.{
  token_count, length-tokens_from, args_pieces-count, instruction-Reads, bare-Reads, label-Reads,
}

comment_round :
    (fuel : ℕ) (cs : Text) (more : List Piece) (line : ℕ)
    → parse_loop (suc fuel) (tokens_from (comment cs ∷ line_break ∷ more) line 1)
      ≡ parse_loop fuel (tokens_from more (line + 1) 1)
unfolding parse_loop check tokens_from piece_tokens same_kind column_after
comment_round fuel cs more line = refl

-- The two kinds of rounds that pass tokens.
break_round :
    (fuel : ℕ) (more : List Piece) (line column : ℕ)
    → parse_loop (suc fuel) (tokens_from (line_break ∷ more) line column)
      ≡ parse_loop fuel (tokens_from more (line + 1) 1)
unfolding parse_loop check tokens_from piece_tokens same_kind column_after
break_round fuel more line column = refl

statement_round :
    (fuel : ℕ) (c : ℕ) (cs : Text) (line column : ℕ) (toks toks' : List Token) (s : Statement)
    → parse_statement (name_token c cs line column) toks ≡ ok (s, toks')
    → parse_loop (suc fuel) (name_token c cs line column ∷ toks)
      ≡ (parse_loop fuel toks' >>= λ stmts. ok (s ∷ stmts))
unfolding parse_loop check same_kind expect
statement_round fuel c cs line column toks toks' s e =
    ap (λ r. r >>= λ (s, toks''). parse_loop fuel toks'' >>= λ stmts. ok (s ∷ stmts)) e

-- A statement, and the end of its line.
line_round :
    (fuel : ℕ) (c : ℕ) (cs : Text) (line column column' : ℕ) (toks : List Token) (s : Statement)
    (more : List Piece) (stmts : List Statement)
    → parse_statement (name_token c cs line column) toks
      ≡ ok (s, tokens_from (line_break ∷ more) line column')
    → parse_loop fuel (tokens_from more (line + 1) 1) ≡ ok stmts
    → parse_loop (suc (suc fuel)) (name_token c cs line column ∷ toks) ≡ ok (s ∷ stmts)
line_round fuel c cs line column column' toks s more stmts read rest =
    statement_round (suc fuel) c cs line column toks (tokens_from (line_break ∷ more) line column')
      s read
    ∙ ap (λ r. r >>= λ stmts. ok (s ∷ stmts)) (break_round fuel more line column' ∙ rest)

-- With fuel for its tokens, the loop reads `stmts` in the pieces from the start of a line on.
abbrev ReadsLines : List Piece → ℕ → List Statement → Type 0
ReadsLines ps line stmts =
    (fuel : ℕ) → token_count ps < fuel → parse_loop fuel (tokens_from ps line 1) ≡ ok stmts

-- A line that is a statement.
statement_line :
    (c : ℕ) (cs : Text) (ps more : List Piece) (line column' : ℕ) (s : Statement)
    (stmts : List Statement)
    → IsName c cs
    → token_count more < token_count ps
    → parse_statement (name_token c cs line 1) (tokens_from ps line (column_after (word c cs) 1))
      ≡ ok (s, tokens_from (line_break ∷ more) line column')
    → ReadsLines more (line + 1) stmts
    → ReadsLines (word c cs ∷ ps) line (s ∷ stmts)
unfolding token_count
statement_line c cs ps more line column' s stmts h count read rest zero enough =
    absurd (omega arith)
statement_line c cs ps more line column' s stmts h count read rest (suc zero) enough =
    absurd (omega (arith, enough))
statement_line c cs ps more line column' s stmts h count read rest (suc (suc fuel)) enough =
    ap (parse_loop (suc (suc fuel))) (tokens_from-name c cs ps line 1 h)
    ∙ line_round fuel c cs line 1 column' (tokens_from ps line (column_after (word c cs) 1)) s more
        stmts read (rest fuel (omega (arith, enough, count)))

tokens_from-blank :
    (ps : List Piece) (line column : ℕ)
    → tokens_from (blank ∷ ps) line column ≡ tokens_from ps line (column + 1)
unfolding tokens_from piece_tokens column_after
tokens_from-blank ps line column = refl

item-ReadsLines :
    (i : Item) (more : List Piece) (line : ℕ) (stmts : List Statement)
    → IsItem i
    → ReadsLines more (line + 1) stmts
    → ReadsLines (item_pieces i more) line (item_statements line i stmts)
unfolding token_count
item-ReadsLines (comment_item cs) more line stmts h rest zero enough = absurd (omega arith)
item-ReadsLines (comment_item cs) more line stmts h rest (suc fuel) enough =
    comment_round fuel cs more line ∙ rest fuel (omega (arith, enough))
item-ReadsLines (label_item c cs) more line stmts h rest fuel enough =
    statement_line c cs (mark colon_mark ∷ line_break ∷ more) more line _ _ stmts h (omega arith)
      (label-Reads c cs more line _ 1) rest fuel enough
item-ReadsLines (instruction_item c cs []) more line stmts h rest fuel enough =
    statement_line c cs (line_break ∷ more) more line _ _ stmts h.0 (omega arith)
      (bare-Reads c cs more line _ 1) rest fuel enough
item-ReadsLines (instruction_item c cs (a ∷ bs)) more line stmts (h, hs) rest fuel enough =
    let after = column_after (word c cs) 1 + 1 in
    let (column', read) = instruction-Reads c cs a bs more line after 1 hs.0 hs.1 in
    statement_line c cs (blank ∷ args_pieces a bs (line_break ∷ more)) more line column' _ stmts h
      (omega (arith, args_pieces-count a bs (line_break ∷ more)))
      (ap (parse_statement (name_token c cs line 1)) (
          tokens_from-blank (args_pieces a bs (line_break ∷ more)) line
            (column_after (word c cs) 1))
        ∙ read)
      rest fuel enough

end_round : (line : ℕ) → ReadsLines [] line []
unfolding parse_loop check tokens_from same_kind
end_round line zero enough = absurd (omega arith)
end_round line (suc fuel) enough = refl

parse_loop-items :
    (items : List Item) (line : ℕ)
    → All IsItem items
    → ReadsLines (items_pieces items) line (statements_from line items)
parse_loop-items [] line h = end_round line
parse_loop-items (i ∷ items) line (h, hs) =
    item-ReadsLines i (items_pieces items) line (statements_from (line + 1) items) h
      (parse_loop-items items (line + 1) hs)

pub parse-items :
    (items : List Item)
    → All IsItem items
    → parse (tokens_from (items_pieces items) 1 1) ≡ ok (statements_from 1 items)
unfolding parse
parse-items items h =
    parse_loop-items items 1 h (suc (length (tokens_from (items_pieces items) 1 1)))
      (omega (arith, length-tokens_from (items_pieces items) 1 1))
