-- ===== src/Cli/Messages.antt =====
-- The texts of the exceptions that src/main.cpp prints: `what()` of src/isa/encoding.cpp,
-- src/asm/lexer.cpp, src/asm/parser.cpp, src/asm/assembler.cpp, include/plab/sim/memory.hpp and the
-- simulators. A reason that the code never throws has an empty text.
use pipeline_lab.Prelude.{[], ◌∷◌, ◌++◌}
use pipeline_lab.Prelude.Text.{codes, decimal, signed_decimal}
use pipeline_lab.Words.{signed}
use pipeline_lab.Isa.Encoding.{EncodingError, DecodingError}
use pipeline_lab.Asm.Program.{Text}
use pipeline_lab.Asm.Token.{TokenKind, identifier, register_name, rparen}
use pipeline_lab.Asm.Statement.{Reason}
use pipeline_lab.Asm.Lexer.{LexReason}
use pipeline_lab.Asm.Parser.{ParseReason}
use pipeline_lab.Sim.Fault.{Fault}

abbrev quoted : Text → Text
quoted s = codes "'" ++ s ++ codes "'"

unfoldable pub lex_what : LexReason → Text
lex_what (LexReason.invalid_number text) = codes "invalid number literal " ++ quoted text
lex_what (LexReason.unexpected_character c) = codes "unexpected character " ++ quoted (c ∷ [])
lex_what LexReason.out_of_fuel = []

-- The second argument of `expect`.
unfoldable pub expected_name : TokenKind → Text
expected_name identifier = codes "label or mnemonic"
expected_name register_name = codes "register"
expected_name rparen = codes "')'"
expected_name _ = []

unfoldable pub parse_what : ParseReason → Text
unfolding expected_name signed_decimal
parse_what (ParseReason.expected kind text) =
    codes "expected " ++ expected_name kind ++ codes " but found " ++ quoted text
parse_what (ParseReason.register_out_of_range value) =
    codes "register out of range: r" ++ signed_decimal value
parse_what (ParseReason.expected_operand text) = codes "expected operand but found " ++ quoted text
parse_what (ParseReason.unexpected_token text) =
    codes "unexpected token after operands: " ++ quoted text
parse_what ParseReason.out_of_fuel = []

unfoldable pub encoding_what : EncodingError → Text
unfolding decimal signed_decimal
encoding_what (EncodingError.register_out_of_range field r) =
    codes "register index out of range for field " ++ field ++ codes ": r" ++ decimal r
encoding_what (EncodingError.immediate_out_of_range imm) =
    codes "immediate out of range: " ++ signed_decimal (signed imm)
encoding_what (EncodingError.offset_out_of_range imm) =
    codes "branch offset out of range: " ++ signed_decimal (signed imm)
encoding_what (EncodingError.target_out_of_range target) =
    codes "jump target out of range: " ++ decimal target

-- The texts that `fail` is called with; the last two are those of the two passes.
unfoldable pub assemble_what : Reason → Text
unfolding encoding_what decimal signed_decimal
assemble_what (Reason.unknown_instruction name) = codes "unknown instruction " ++ quoted name
assemble_what (Reason.operand_count name n got) =
    name ++ codes " expects " ++ decimal n ++ codes " operand(s), got " ++ decimal got
assemble_what Reason.expected_register = codes "expected a register operand"
assemble_what Reason.expected_immediate = codes "expected an immediate operand"
assemble_what Reason.expected_memory = codes "expected disp(base) memory operand"
assemble_what (Reason.immediate_out_of_range imm) =
    codes "immediate out of range: " ++ signed_decimal imm
assemble_what (Reason.displacement_out_of_range imm) =
    codes "displacement out of range: " ++ signed_decimal imm
assemble_what (Reason.undefined_label name) = codes "undefined label " ++ quoted name
assemble_what Reason.branch_target_kind = codes "branch target must be a label or immediate offset"
assemble_what (Reason.branch_too_far offset) =
    codes "branch target too far: offset " ++ signed_decimal offset
assemble_what Reason.jump_target_kind = codes "jump target must be a label or address"
assemble_what Reason.negative_target = codes "jump target must be non-negative"
assemble_what (Reason.duplicate_label name) = codes "duplicate label " ++ quoted name
assemble_what (Reason.encoding_failed e) = codes "encoding error: " ++ encoding_what e

-- The checks of the memory throw the first two, `decode` throws for an unknown opcode, and the
-- others are those of the two loops. The simulators' limits are those of their default arguments,
-- 1000000.
unfoldable pub fault_what : Fault → Text
unfolding decimal
fault_what (Fault.unaligned addr) = codes "unaligned data access at address " ++ decimal addr
fault_what (Fault.out_of_bounds addr) =
    codes "data access out of bounds at address " ++ decimal addr
fault_what (Fault.outside_storage _) = []
fault_what (Fault.not_decoded (DecodingError.unknown_opcode opv)) =
    codes "unknown opcode: " ++ decimal opv
fault_what (Fault.pc_out_of_range pc) = codes "PC out of range: " ++ decimal pc
fault_what Fault.step_limit =
    codes "execution exceeded step limit (1000000); possible infinite loop"
fault_what Fault.cycle_limit =
    codes "pipeline exceeded cycle limit (1000000); possible infinite loop"
