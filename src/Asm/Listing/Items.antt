-- ===== src/Asm/Listing/Items.antt =====
-- The lines of a source text, and the statements that src/asm/parser.cpp is to read in them.
use pipeline_lab.Prelude.{ℕ, ◌+◌, ◌<◌, ◌≡◌, List, [], ◌∷◌, map, All, none}
use pipeline_lab.Prelude.Text.{decimal}
use pipeline_lab.Prelude.Int.{ℤ, pos}
use pipeline_lab.Asm.Program.{Text}
use pipeline_lab.Asm.Lexer.{register_name_index}
use pipeline_lab.Asm.Statement.{
  Operand, OperandKind, no_operand, label_definition, instruction, Statement,
}
use pipeline_lab.Asm.Parser.{to_lower}
use pipeline_lab.Asm.Listing.{
  comma_mark, colon_mark, open_mark, close_mark, Piece, word, literal, mark, blank, line_break,
  comment, render, IsPiece,
}

-- An operand: `r3`, `-8`, `loop`, `4(r2)` and `(r2)`.
pub data Arg : Type 0 where
  register_arg : ℕ → Arg
  immediate_arg : ℤ → Arg
  label_arg : ℕ → Text → Arg
  memory_arg : ℤ → ℕ → Arg
  base_arg : ℕ → Arg

-- A line: `loop:`, an instruction with its operands, or a comment.
pub data Item : Type 0 where
  label_item : ℕ → Text → Item
  instruction_item : ℕ → Text → List Arg → Item
  comment_item : Text → Item

unfoldable pub register_piece : ℕ → Piece
unfolding decimal
register_piece r = word b'r' (decimal r)

abbrev pub base_pieces : ℕ → List Piece → List Piece
base_pieces r more = mark open_mark ∷ register_piece r ∷ mark close_mark ∷ more

-- An operand in front of other pieces.
abbrev pub arg_pieces : Arg → List Piece → List Piece
arg_pieces (register_arg r) more = register_piece r ∷ more
arg_pieces (immediate_arg v) more = literal v ∷ more
arg_pieces (label_arg c cs) more = word c cs ∷ more
arg_pieces (memory_arg d r) more = literal d ∷ base_pieces r more
arg_pieces (base_arg r) more = base_pieces r more

-- Operands, with a comma and a blank between them.
abbrev pub args_pieces : Arg → List Arg → List Piece → List Piece
args_pieces a [] more = arg_pieces a more
args_pieces a (b ∷ bs) more = arg_pieces a (mark comma_mark ∷ blank ∷ args_pieces b bs more)

abbrev pub item_pieces : Item → List Piece → List Piece
item_pieces (label_item c cs) more = word c cs ∷ mark colon_mark ∷ line_break ∷ more
item_pieces (instruction_item c cs []) more = word c cs ∷ line_break ∷ more
item_pieces (instruction_item c cs (a ∷ bs)) more =
    word c cs ∷ blank ∷ args_pieces a bs (line_break ∷ more)
item_pieces (comment_item cs) more = comment cs ∷ line_break ∷ more

abbrev pub items_pieces : List Item → List Piece
items_pieces [] = []
items_pieces (i ∷ is) = item_pieces i (items_pieces is)

-- The source text of some lines.
unfoldable pub source_text : List Item → Text
unfolding register_piece render
source_text items = render (items_pieces items)

abbrev pub arg_operand : ℕ → Arg → Operand
arg_operand line (register_arg r) = record no_operand {
  line = line;
  kind = OperandKind.register;
  reg = r;
}
arg_operand line (immediate_arg v) = record no_operand {
  line = line;
  kind = OperandKind.immediate;
  imm = v;
}
arg_operand line (label_arg c cs) = record no_operand {
  line = line;
  kind = OperandKind.label;
  label = c ∷ cs;
}
arg_operand line (memory_arg d r) = record no_operand {
  line = line;
  kind = OperandKind.memory;
  imm = d;
  reg = r;
}
arg_operand line (base_arg r) = record no_operand {
  line = line;
  kind = OperandKind.memory;
  imm = pos 0;
  reg = r;
}

unfoldable pub instruction_statement : ℕ → Text → List Arg → Statement
unfolding to_lower
instruction_statement line name args = record {
  kind = instruction;
  name = to_lower name;
  operands = map (arg_operand line) args;
  line = line;
}

-- The statement of the line with the number `line`, if it has one, in front of others.
abbrev pub item_statements : ℕ → Item → List Statement → List Statement
item_statements line (label_item c cs) stmts =
    record { kind = label_definition; name = c ∷ cs; operands = []; line = line } ∷ stmts
item_statements line (instruction_item c cs args) stmts =
    instruction_statement line (c ∷ cs) args ∷ stmts
item_statements line (comment_item cs) stmts = stmts

-- The statements of some lines, the first of which has the number `line`.
abbrev pub statements_from : ℕ → List Item → List Statement
statements_from line [] = []
statements_from line (i ∷ items) = item_statements line i (statements_from (line + 1) items)

-- A name: no register.
abbrev pub IsName : ℕ → Text → Type 0
IsName c cs = IsPiece (word c cs) × (register_name_index (c ∷ cs) ≡ none)

-- Registers that exist, numbers that a `long long` holds, and names.
abbrev pub IsArg : Arg → Type 0
IsArg (register_arg r) = r < 16
IsArg (immediate_arg v) = IsPiece (literal v)
IsArg (label_arg c cs) = IsName c cs
IsArg (memory_arg d r) = IsPiece (literal d) × (r < 16)
IsArg (base_arg r) = r < 16

abbrev pub IsItem : Item → Type 0
IsItem (label_item c cs) = IsName c cs
IsItem (instruction_item c cs args) = IsName c cs × All IsArg args
IsItem (comment_item cs) = IsPiece (comment cs)
