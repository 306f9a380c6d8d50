-- ===== src/Asm/Tests/Sources.antt =====
-- The parser and the assembler of src/asm on small source texts.
use pipeline_lab.Prelude.{Yields, ◌≡◌, refl, arith, List, [], ◌∷◌, ok}
use pipeline_lab.Prelude.Text.{codes}
use pipeline_lab.Prelude.Int.{pos}
use pipeline_lab.Isa.Opcode.{opcode_value, format_of, is_ret}
use pipeline_lab.Isa.Instruction.{Instruction, blank}
use pipeline_lab.Isa.Encoding.{encode, reg_field}
use pipeline_lab.Asm.Program.{Text}
use pipeline_lab.Asm.Statement.{
  memory, no_operand, Statement, instruction, is_label, find_key, same_text,
}
use pipeline_lab.Asm.Token.{
  Token, same_kind, identifier, register_name, comma, number, lparen, rparen, end_of_input,
}
use pipeline_lab.Asm.Lexer.{
  tokenize, lex_round, is_alpha, is_digit, is_alnum, is_ident_start, is_ident_char, lex_number,
  lex_word,
}
use pipeline_lab.Asm.Source.{assemble_source, Raised, assemble_source-Yields}
use pipeline_lab.Asm.Translator.Fitting.{translate-encodes}
use pipeline_lab.Isa.Encoding.{target_out_of_range}
use pipeline_lab.Isa.Opcode.{Opcode, j_type}
use pipeline_lab.Prelude.{err}
use pipeline_lab.Asm.Parser.{
  parse, parse_statement, expect, check, register_index, base_register, parse_operand,
  at_end_of_statement, to_lower,
}
use pipeline_lab.Asm.Translator.{
  translate, make_li, make_branch, make_jump, translate_format, lookup_opcode, expect_argc, reg,
  imm, branch_offset, resolve_label, jump_target,
}
use pipeline_lab.Asm.Assembler.{assemble}
use pipeline_lab.Asm.Assembler.Code.{Encodes}
use pipeline_lab.Asm.Tests.{literal, skipping_program}

-- lw r1, 4(r2)
abbrev load_line : List Token
load_line =
    record { kind = identifier; text = codes "LW"; value = pos 0; line = 1; column = 1 }
    ∷ record { kind = register_name; text = codes "r1"; value = pos 1; line = 1; column = 4 }
    ∷ record { kind = comma; text = codes ","; value = pos 0; line = 1; column = 6 }
    ∷ record { kind = number; text = codes "4"; value = pos 4; line = 1; column = 8 }
    ∷ record { kind = lparen; text = codes "("; value = pos 0; line = 1; column = 9 }
    ∷ record { kind = register_name; text = codes "r2"; value = pos 2; line = 1; column = 10 }
    ∷ record { kind = rparen; text = codes ")"; value = pos 0; line = 1; column = 12 }
    ∷ record { kind = end_of_input; text = []; value = pos 0; line = 1; column = 13 }
    ∷ []

abbrev load_statement : Statement
load_statement = record {
  kind = instruction;
  name = codes "lw";
  operands =
      record no_operand { reg = 1; line = 1 }
      ∷ record no_operand { kind = memory; reg = 2; imm = pos 4; line = 1 }
      ∷ [];
  line = 1;
}

load_line_parsed : parse load_line ≡ ok (load_statement ∷ [])
unfolding parse parse_statement expect check register_index base_register parse_operand
    at_end_of_statement to_lower same_kind
load_line_parsed = refl

abbrev skipping_source : Text
skipping_source = codes "li r1, 5\nbeq r0, r0, end ; skip\nLI r1, 0x7\nend: ret\n"

skipping_source_assembled : assemble_source skipping_source ≡ ok skipping_program
unfolding assemble_source tokenize lex_round is_alpha is_digit is_alnum is_ident_start is_ident_char
    lex_number lex_word parse parse_statement expect check register_index base_register
    parse_operand at_end_of_statement to_lower same_kind assemble is_label find_key translate
    make_li make_branch make_jump translate_format lookup_opcode expect_argc reg imm branch_offset
    resolve_label encode format_of opcode_value reg_field is_ret
skipping_source_assembled = refl

assemble_source-Yields_example :
    Yields Raised (λ p. Encodes p.words p.instructions) (assemble_source skipping_source)
assemble_source-Yields_example = assemble_source-Yields skipping_source

-- j 67108864
abbrev far_jump : Statement
far_jump = record {
  kind = instruction;
  name = codes "j";
  operands = literal 67108864 ∷ [];
  line = 1;
}

abbrev far : Instruction
far = record (blank Opcode.j) { target = 67108864 }

far_translated : translate [] far_jump 0 ≡ ok far
unfolding translate same_text lookup_opcode find_key translate_format format_of make_jump is_ret
    expect_argc jump_target
far_translated = refl

far_refused : encode far ≡ err (target_out_of_range 67108864)
unfolding encode format_of opcode_value
far_refused = refl

translate-encodes_example :
    (format_of far.op ≡ j_type) × (target_out_of_range 67108864 ≡ target_out_of_range far.target)
translate-encodes_example =
    translate-encodes [] far_jump 0 far (target_out_of_range 67108864) (omega arith, tt)
      far_translated far_refused
