-- ===== src/Asm/Parser.antt =====
-- src/asm/parser.cpp: statements from tokens. The parser's state is the list of the tokens from
-- `pos_` on; the lexer ends its list with an End token, which the parser never passes, so a peek
-- past the list stands for that token.
pub mod Outcome
use pipeline_lab.Prelude.{
  ℕ, zero, suc, ◌+◌, ◌%◌, List, [], ◌∷◌, length, map, Bool, true, false, not, ◌||◌, ◌&&◌, leb,
  if◌then◌else◌, Result, ok, err, ◌>>=◌, ◌>>◌, guard,
}
use pipeline_lab.Prelude.Int.{ℤ, pos, ltb_ℤ}
use pipeline_lab.Words.{to_word}
use pipeline_lab.Isa.Instruction.{num_registers}
use pipeline_lab.Asm.Program.{Text}
use pipeline_lab.Asm.Token.{
  TokenKind, identifier, register_name, number, comma, colon, lparen, rparen, newline, end_of_input,
  Token, no_token, same_kind,
}
use pipeline_lab.Asm.Statement.{
  OperandKind, register, immediate, label, memory, Operand, no_operand, StatementKind,
  label_definition, instruction, Statement,
}

-- Why the parser throws; `out_of_fuel` is no exception of the code.
pub data ParseReason : Type 0 where
  expected : TokenKind → Text → ParseReason
  register_out_of_range : ℤ → ParseReason
  expected_operand : Text → ParseReason
  unexpected_token : Text → ParseReason
  out_of_fuel : ParseReason

pub record ParseError : Type 0 where
  pub reason : ParseReason
  pub line : ℕ

-- `std::tolower` in the C locale.
unfoldable pub lower_byte : ℕ → ℕ
lower_byte c = if leb b'A' c && leb c b'Z' then c + 32 else c

unfoldable pub to_lower : Text → Text
unfolding lower_byte
to_lower s = map lower_byte s

abbrev pub peek : List Token → Token
peek [] = no_token
peek (tok ∷ _) = tok

abbrev pub advance : List Token → List Token
advance [] = []
advance (_ ∷ toks) = toks

unfoldable pub check : TokenKind → List Token → Bool
unfolding same_kind
check k toks = same_kind (peek toks).kind k

-- The token expected, and the tokens after it.
unfoldable pub expect : TokenKind → List Token → Result ParseError (Token × List Token)
expect k toks = do
  guard (check k toks) (record { reason = expected k (peek toks).text; line = (peek toks).line })
  ok (peek toks, advance toks)

-- The check of a register's index, and the index as a `std::uint8_t`.
unfoldable pub register_index : Token → Result ParseError ℕ
register_index tok = do
  guard (not (ltb_ℤ tok.value (pos 0) || not (ltb_ℤ tok.value (pos num_registers))))
      (record { reason = register_out_of_range tok.value; line = tok.line })
  ok (to_word tok.value % 256)

-- The rest of `(base)`, after the parenthesis.
unfoldable pub base_register : List Token → Result ParseError (ℕ × List Token)
base_register toks = do
  (base, toks') ← expect register_name toks
  (_, toks'') ← expect rparen toks'
  index ← register_index base
  ok (index, toks'')

-- The `switch` on the kind of an operand's first token.
unfoldable pub operand_as :
    TokenKind → Token → List Token → Result ParseError (Operand × List Token)
operand_as register_name tok toks = do
  index ← register_index tok
  ok (record no_operand { line = tok.line; kind = register; reg = index }, toks)
operand_as identifier tok toks =
    ok (record no_operand { line = tok.line; kind = label; label = tok.text }, toks)
operand_as lparen tok toks = do
  (index, toks') ← base_register toks
  ok (record no_operand { line = tok.line; kind = memory; imm = pos 0; reg = index }, toks')
operand_as number tok toks = elim (check lparen toks) [
  | true ↦ do
    (index, toks') ← base_register (advance toks)
    ok (record no_operand { line = tok.line; kind = memory; imm = tok.value; reg = index }, toks')
  | false ↦ ok (record no_operand { line = tok.line; kind = immediate; imm = tok.value }, toks)
]
operand_as _ tok toks = err (record { reason = expected_operand tok.text; line = tok.line })

unfoldable pub parse_operand : List Token → Result ParseError (Operand × List Token)
unfolding operand_as
parse_operand toks = operand_as (peek toks).kind (peek toks) (advance toks)

-- The operands, separated by commas.
unfoldable pub parse_operands : ℕ → List Token → Result ParseError (List Operand × List Token)
parse_operands zero toks = err (record { reason = out_of_fuel; line = 0 })
parse_operands (suc fuel) toks = do
  (op, toks') ← parse_operand toks
  elim (check comma toks') [
    | true ↦ parse_operands fuel (advance toks') >>= λ (ops, toks''). ok (op ∷ ops, toks'')
    | false ↦ ok (op ∷ [], toks')
  ]

unfoldable pub at_end_of_statement : List Token → Bool
at_end_of_statement toks = check newline toks || check end_of_input toks

-- A statement whose first token is `head`.
unfoldable pub parse_statement : Token → List Token → Result ParseError (Statement × List Token)
unfolding parse_operands
parse_statement head toks = elim (check colon toks) [
  | true ↦ ok (
    record { kind = label_definition; name = head.text; operands = []; line = head.line },
    advance toks,
  )
  | false ↦ do
    (ops, toks') ← elim (at_end_of_statement toks) [
      | true ↦ ok ([], toks)
      | false ↦ parse_operands (length toks) toks
    ]
    guard (at_end_of_statement toks')
        (record { reason = unexpected_token (peek toks').text; line = (peek toks').line })
    ok (
      record { kind = instruction; name = to_lower head.text; operands = ops; line = head.line },
      toks',
    )
]

unfoldable pub parse_loop : ℕ → List Token → Result ParseError (List Statement)
parse_loop zero toks = err (record { reason = out_of_fuel; line = 0 })
parse_loop (suc fuel) toks = elim (check end_of_input toks) [
  | true ↦ ok []
  | false ↦ elim (check newline toks) [
    | true ↦ parse_loop fuel (advance toks)
    | false ↦ do
      (head, toks') ← expect identifier toks
      (s, toks'') ← parse_statement head toks'
      parse_loop fuel toks'' >>= λ stmts. ok (s ∷ stmts)
  ]
]

-- Every round passes a token.
unfoldable pub parse : List Token → Result ParseError (List Statement)
unfolding parse_loop
parse toks = parse_loop (suc (length toks)) toks
