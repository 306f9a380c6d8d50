-- ===== src/Asm/Tests.antt =====
-- The assembler of src/asm/assembler.cpp on a small program.
mod Listing
mod Failures
mod Sources
use pipeline_lab.Prelude.{
  ◌↔◌, ◌%◌, ◌^◌, ◌<◌, ℕ, ◌+◌, ◌*◌, ◌≡◌, ◌++◌, refl, arith, List, [], ◌∷◌, length, true, ok, some,
}
use pipeline_lab.Prelude.Text.{codes}
use pipeline_lab.Prelude.Int.{ℤ, pos}
use pipeline_lab.Words.{u32}
use pipeline_lab.Isa.Opcode.{
  j, addi, beq, ret, opcode_value, opcode_cast, format_of, is_load, is_store, is_ret, is_jal,
}
use pipeline_lab.Isa.Instruction.{Instruction, blank}
use pipeline_lab.Isa.Encoding.{encode, decode, sign_extend, reg_field}
use pipeline_lab.Asm.Program.{Program, code_bytes, Text}
use pipeline_lab.Asm.Statement.{
  Operand, immediate, label, no_operand, Statement, label_definition, instruction, is_label,
  find_key, same_text,
}
use pipeline_lab.Asm.Translator.{
  Symbols, translate, make_li, make_branch, make_jump, translate_format, lookup_opcode, expect_argc,
  reg, imm, branch_offset, resolve_label,
}
use pipeline_lab.Asm.Translator.Laws.{IsCanonical, translate-IsCanonical}
use pipeline_lab.Asm.Translator.Targets.{make_branch-lands, make_jump-encodes_iff}
use pipeline_lab.Asm.Assembler.{symbol_table, assemble}
use pipeline_lab.Asm.Assembler.Addresses.{find_key-symbol_table}
use pipeline_lab.Asm.Assembler.Code.{Encodes, assemble-Encodes}
use pipeline_lab.Asm.Assembler.Runs.{assembled_run-Halts}
use pipeline_lab.Sim.RegisterFile.{read, write}
use pipeline_lab.Sim.Alu.{alu_result, branch_taken}
use pipeline_lab.Sim.Interpreter
use pipeline_lab.Sim.Interpreter.{Interpreter, new_interpreter}
use pipeline_lab.Sim.Pipeline.Stages
use pipeline_lab.Sim.Pipeline.State.{Pipeline, new_pipeline}
use pipeline_lab.Sim.Pipeline.Cycle.{run}

abbrev in_register : ℕ → Operand
in_register r = record no_operand { reg = r }

abbrev literal : ℕ → Operand
literal n = record no_operand { kind = immediate; imm = pos n }

abbrev to_label : Text → Operand
to_label name = record no_operand { kind = label; label = name }

--       li r1, 5
--       beq r0, r0, end
--       li r1, 7
-- end:  ret
abbrev before_end : List Statement
before_end =
    record {
      kind = instruction;
      name = codes "li";
      operands = in_register 1 ∷ literal 5 ∷ [];
      line = 1;
    }
    ∷ record {
      kind = instruction;
      name = codes "beq";
      operands = in_register 0 ∷ in_register 0 ∷ to_label (codes "end") ∷ [];
      line = 2;
    }
    ∷ record {
      kind = instruction;
      name = codes "li";
      operands = in_register 1 ∷ literal 7 ∷ [];
      line = 3;
    }
    ∷ []

abbrev end_label : Statement
end_label = record { kind = label_definition; name = codes "end"; operands = []; line = 4 }

abbrev after_end : List Statement
after_end = record { kind = instruction; name = codes "ret"; operands = []; line = 4 } ∷ []

abbrev skipping : List Statement
skipping = before_end ++ end_label ∷ after_end

abbrev skipping_symbols : Symbols
skipping_symbols = (codes "end", 12) ∷ []

abbrev skip : Instruction
skip = record (blank beq) { imm = 8 }

abbrev skipping_program : Program
skipping_program = record {
  words = 541065221 ∷ 1006632968 ∷ 541065223 ∷ 1342177280 ∷ [];
  instructions =
      record (blank addi) { rd = 1; imm = 5 }
      ∷ skip
      ∷ record (blank addi) { rd = 1; imm = 7 }
      ∷ blank ret
      ∷ [];
  source_lines = 1 ∷ 2 ∷ 3 ∷ 4 ∷ [];
  symbols = skipping_symbols;
}

skipping_assembled : assemble skipping ≡ ok skipping_program
unfolding assemble is_label find_key translate make_li make_branch make_jump translate_format
    lookup_opcode expect_argc reg imm branch_offset resolve_label encode format_of opcode_value
    reg_field is_ret
skipping_assembled = refl

skipping_addresses : symbol_table [] 0 skipping ≡ ok skipping_symbols
unfolding symbol_table is_label find_key
skipping_addresses = refl

is_end : is_label end_label.kind ≡ true
unfolding is_label
is_end = refl

find_key-symbol_table_example : find_key skipping_symbols (codes "end") ≡ some (u32 (0 + 4 * 3))
unfolding is_label
find_key-symbol_table_example =
    find_key-symbol_table before_end after_end end_label [] 0 (omega arith) is_end
      skipping_addresses

assemble-Encodes_example :
    Encodes skipping_program.words skipping_program.instructions
    × (skipping_program.source_lines ≡ 1 ∷ 2 ∷ 3 ∷ 4 ∷ [])
    × (length skipping_program.words ≡ 4)
unfolding is_label
assemble-Encodes_example = assemble-Encodes skipping skipping_program skipping_assembled

abbrev branch : Statement
branch = record {
  kind = instruction;
  name = codes "beq";
  operands = in_register 0 ∷ in_register 0 ∷ to_label (codes "end") ∷ [];
  line = 2;
}

branch_made : make_branch skipping_symbols 2 beq branch 4 ≡ ok skip
unfolding make_branch find_key expect_argc reg branch_offset resolve_label
branch_made = refl

end_found : find_key skipping_symbols (codes "end") ≡ some 12
unfolding find_key
end_found = refl

make_branch-lands_example :
    (Interpreter.add_offset 4 skip.imm ≡ 12) × (Stages.add_offset 4 skip.imm ≡ 12)
make_branch-lands_example =
    make_branch-lands skipping_symbols 2 beq branch 4 12 (omega arith) (omega arith) refl end_found
      branch_made

branch_translated : translate skipping_symbols branch 4 ≡ ok skip
unfolding translate make_branch translate_format lookup_opcode find_key expect_argc reg
    branch_offset resolve_label format_of same_text
branch_translated = refl

translate-IsCanonical_example : IsCanonical skip
translate-IsCanonical_example = translate-IsCanonical skipping_symbols branch 4 branch_translated

-- j 4294967304
abbrev wrapping_jump : Statement
wrapping_jump = record {
  kind = instruction;
  name = codes "j";
  operands = literal 4294967304 ∷ [];
  line = 1;
}

make_jump-encodes_iff_example :
    ((inst : Instruction) × (make_jump [] 1 j wrapping_jump ≡ ok inst)
      × (encode inst ≡ ok (opcode_value j * 2 ^ 26 + 8)))
    ↔ ((n : ℕ) × (◌≡◌ {A = ℤ} (pos 4294967304) (pos n)) × (8 ≡ n % 2 ^ 32) × (8 < 2 ^ 26))
unfolding format_of is_ret
make_jump-encodes_iff_example = make_jump-encodes_iff [] 1 j wrapping_jump 8 refl refl refl refl

abbrev skipped : Interpreter
skipped = record {
  regs = record { regs = 0 ∷ 5 ∷ 0 ∷ 0 ∷ 0 ∷ 0 ∷ 0 ∷ 0 ∷ 0 ∷ 0 ∷ 0 ∷ 0 ∷ 0 ∷ 0 ∷ 0 ∷ 0 ∷ [] };
  mem = record { words = 0 ∷ []; size_bytes = 4 };
  pc = 12;
  retired = 3;
}

skipping_interpreted : Interpreter.run 9 skipping_program (new_interpreter 4) ≡ ok skipped
unfolding Interpreter.run Interpreter.step Interpreter.execute_format code_bytes decode opcode_value
    opcode_cast format_of sign_extend is_load is_store is_ret is_jal alu_result branch_taken read
    write Interpreter.add_offset new_interpreter
skipping_interpreted = refl

assembled_run-Halts_example :
    (final : Pipeline) × (run 11 skipping_program (new_pipeline 4 true) ≡ ok final)
    × (final.regs ≡ skipped.regs)
    × (final.mem ≡ skipped.mem)
    × (final.stats.retired ≡ 3)
assembled_run-Halts_example =
    assembled_run-Halts skipping skipping_program 4 9 11 skipped skipping_assembled
      skipping_interpreted (omega arith)
