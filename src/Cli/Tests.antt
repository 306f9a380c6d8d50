-- ===== src/Cli/Tests.antt =====
-- The command line of src/main.cpp on small arguments.
use pipeline_lab.Prelude.{
  ◌≡◌, ◌↔◌, ◌⊎◌, inr, refl, arith, List, [], ◌∷◌, ◌++◌, true, false, Option, none, some, ok,
}
use pipeline_lab.Prelude.Text.{codes, decimal}
use pipeline_lab.Isa.Opcode.{
  addi, opcode_value, opcode_cast, format_of, is_load, is_store, is_ret, is_jal,
}
use pipeline_lab.Isa.Opcode
use pipeline_lab.Isa.Instruction.{blank}
use pipeline_lab.Isa.Encoding.{decode, encode, sign_extend, reg_field}
use pipeline_lab.Asm.Program.{Program, Text, code_bytes}
use pipeline_lab.Asm.Lexer.{
  tokenize, lex_round, is_alpha, is_digit, digit_value, is_alnum, is_ident_start, is_ident_char,
  lex_number, lex_word,
}
use pipeline_lab.Asm.Token.{same_kind}
use pipeline_lab.Asm.Parser.{
  parse, parse_statement, expect, check, register_index, base_register, parse_operand,
  at_end_of_statement, to_lower,
}
use pipeline_lab.Asm.Statement.{find_key, is_label}
use pipeline_lab.Asm.Translator.{
  translate, make_li, make_branch, make_jump, translate_format, lookup_opcode, expect_argc, reg,
  imm, branch_offset, resolve_label,
}
use pipeline_lab.Asm.Assembler.{assemble}
use pipeline_lab.Asm.Source.{assemble_source}
use pipeline_lab.Sim.RegisterFile.{read, write}
use pipeline_lab.Sim.Alu.{alu_result}
use pipeline_lab.Sim.Memory.{DataMemory, load_word, check_access}
use pipeline_lab.Sim.Interpreter
use pipeline_lab.Sim.Interpreter.{Interpreter, new_interpreter}
use pipeline_lab.Sim.Pipeline.State.{Pipeline, new_pipeline, make_control}
use pipeline_lab.Sim.Pipeline.Stages.{forwarded, execute, detect_stall, decode_stage, fetch_into}
use pipeline_lab.Sim.Pipeline.Cycle.{run, cycle, drained}
use pipeline_lab.Isa.Disassemble.{disassemble, mnemonic_of}
use pipeline_lab.Cli.Options.{
  Options, initial_options, options, shows_help, parse_args, default_mode, parse_mem_count,
}
use pipeline_lab.Cli.Options.Given.{arguments, parse_args-arguments}
use pipeline_lab.Cli.Output.{
  run_modes, in_order, run_pipeline, print, print_memory, interpreter_report, pipeline_report,
  default_limit, default_bytes,
}
use pipeline_lab.Cli.Output.Words.{print_memory-lines, memory_lines}
use pipeline_lab.Cli.Main.{main}
use pipeline_lab.Cli.Main.Success.{FileRuns, main-code-eq-zero_iff}
use pipeline_lab.Cli.Main.Agreement.{main-agrees}
use pipeline_lab.Cli.Main.Simulation.{main-simulates}

-- tests/CMakeLists.txt: --mem abc and --mem 99999999999 are refused.
mem_invalid : parse_mem_count (codes "abc") ≡ none
unfolding parse_mem_count is_digit digit_value
mem_invalid = refl

mem_huge : parse_mem_count (codes "99999999999") ≡ none
unfolding parse_mem_count is_digit digit_value
mem_huge = refl

mem_minus_zero : parse_mem_count (codes "-0") ≡ some 0
unfolding parse_mem_count is_digit digit_value
mem_minus_zero = refl

abbrev both_args : List Text
both_args = codes "a.asm" ∷ codes "--interp" ∷ codes "--pipeline" ∷ codes "--regs" ∷ []

abbrev both_options : Options
both_options = record initial_options {
  path = codes "a.asm";
  run_interp = true;
  run_pipeline = true;
  show_regs = true;
}

both_parsed : parse_args false both_args initial_options ≡ options both_options
unfolding parse_args
both_parsed = refl

-- No forwarding, the statistics and 8 words.
abbrev stats_options : Options
stats_options = record initial_options {
  path = codes "a.asm";
  run_pipeline = true;
  show_stats = true;
  forwarding = false;
  mem_words = 8;
}

parse_args-arguments_example :
    parse_args false (arguments stats_options) initial_options ≡ options stats_options
parse_args-arguments_example = parse_args-arguments stats_options (omega arith) refl

stats_arguments :
    arguments stats_options
    ≡ codes "--pipeline"
      ∷ codes "--stats"
      ∷ codes "--no-forward"
      ∷ codes "--mem"
      ∷ codes "8"
      ∷ codes "a.asm"
      ∷ []
unfolding arguments decimal
stats_arguments = refl

abbrev two_words : DataMemory
two_words = record { words = 5 ∷ 6 ∷ []; size_bytes = 8 }

print_memory-lines_example :
    print_memory two_words 3
    ≡ print (
        codes "=== Data memory (first "
        ++ decimal 3
        ++ codes " words) ===\n"
        ++ memory_lines 0 (5 ∷ 6 ∷ []))
print_memory-lines_example = print_memory-lines two_words (refl, omega arith) (omega arith) 3

two_words_text :
    print_memory two_words 3
    ≡ print (codes "=== Data memory (first 3 words) ===\n[0] = 5\n[4] = 6\n")
unfolding print_memory load_word check_access
two_words_text = refl

-- One file.
abbrev files : Text → Option Text
files path = some (codes "li r1, 5\nret\n")

abbrev five : Program
five = record {
  words = 541065221 ∷ 1342177280 ∷ [];
  instructions = record (blank addi) { rd = 1; imm = 5 } ∷ blank Opcode.ret ∷ [];
  source_lines = 1 ∷ 2 ∷ [];
  symbols = [];
}

five_assembled : assemble_source (codes "li r1, 5\nret\n") ≡ ok five
unfolding assemble_source tokenize lex_round is_alpha is_digit is_alnum is_ident_start is_ident_char
    lex_number lex_word parse parse_statement expect check register_index base_register
    parse_operand at_end_of_statement to_lower same_kind assemble is_label find_key translate
    make_li make_branch make_jump translate_format lookup_opcode expect_argc reg imm branch_offset
    resolve_label encode format_of opcode_value reg_field is_ret
five_assembled = refl

abbrev five_end : Interpreter
five_end = record (new_interpreter default_bytes) {
  regs = write (new_interpreter default_bytes).regs 1 5;
  pc = 4;
  retired = 2;
}

five_interpreted : Interpreter.run default_limit five (new_interpreter default_bytes) ≡ ok five_end
unfolding Interpreter.run Interpreter.step Interpreter.execute_format code_bytes decode opcode_value
    opcode_cast format_of sign_extend is_load is_store is_ret is_jal alu_result read write
    new_interpreter
five_interpreted = refl

main-agrees_example :
    (final : Pipeline) × (main files (codes "plab") both_args ≡ record {
      out =
          (interpreter_report both_options five_end).text
          ++ (pipeline_report both_options final).text;
      errors = [];
      code = 0;
    })
    × (final.regs ≡ five_end.regs)
    × (final.mem ≡ five_end.mem)
    × (final.stats.retired ≡ 2)
main-agrees_example =
    main-agrees files (codes "plab") both_args both_options (codes "li r1, 5\nret\n") five five_end
      both_parsed (λ e. cc) refl refl (λ off. cc) refl five_assembled five_interpreted (omega arith)

abbrev bogus : List Text
bogus = codes "a.asm" ∷ codes "--bogus" ∷ []

main-code-eq-zero_iff_example :
    ((main files (codes "plab") bogus).code ≡ 0)
    ↔ (parse_args false bogus initial_options ≡ shows_help)
      ⊎ ((opts : Options) × (parse_args false bogus initial_options ≡ options opts)
          × FileRuns files opts)
main-code-eq-zero_iff_example = main-code-eq-zero_iff files (codes "plab") bogus

bogus_code : (main files (codes "plab") bogus).code ≡ 2
unfolding main
bogus_code = refl

abbrev alone_args : List Text
alone_args = codes "a.asm" ∷ codes "--pipeline" ∷ []

abbrev alone_options : Options
alone_options = record initial_options { path = codes "a.asm"; run_pipeline = true }

alone_parsed : parse_args false alone_args initial_options ≡ options alone_options
unfolding parse_args
alone_parsed = refl

alone_runs : (run_modes (default_mode alone_options) five).raised ≡ none
unfolding run_modes default_mode in_order run_pipeline pipeline_report run cycle drained code_bytes
    decode opcode_value opcode_cast format_of sign_extend is_load is_store is_ret is_jal alu_result
    read write execute detect_stall decode_stage fetch_into disassemble mnemonic_of make_control
    new_pipeline forwarded
alone_runs = refl

alone_code : (main files (codes "plab") alone_args).code ≡ 0
alone_code = (main-code-eq-zero_iff files (codes "plab") alone_args).1 (
    inr (
      alone_options,
      alone_parsed,
      ((λ e. cc), (codes "li r1, 5\nret\n", refl, (five, five_assembled, alone_runs))),
    ))

main-simulates_example :
    (end : Interpreter) × (final : Pipeline) × (Interpreter.run default_limit five
        (new_interpreter default_bytes)
      ≡ ok end)
    × (main files (codes "plab") alone_args ≡ record {
      out = (pipeline_report (default_mode alone_options) final).text;
      errors = [];
      code = 0;
    })
    × (final.regs ≡ end.regs)
    × (final.mem ≡ end.mem)
    × (final.stats.retired ≡ end.retired)
main-simulates_example =
    main-simulates files (codes "plab") alone_args alone_options (codes "li r1, 5\nret\n") five
      alone_parsed (λ e. cc) refl (λ off. cc) refl five_assembled alone_code
