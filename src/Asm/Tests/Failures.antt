-- ===== src/Asm/Tests/Failures.antt =====
-- A source that src/asm/assembler.cpp refuses in pass 2.
use pipeline_lab.Prelude.{◌≡◌, refl, ◌↔◌, ◌⊎◌, List, [], ◌∷◌, ok, err}
use pipeline_lab.Prelude.Text.{codes}
use pipeline_lab.Asm.Statement.{
  Statement, AssembleError, undefined_label, duplicate_label, instruction, is_label, find_key,
}
use pipeline_lab.Isa.Opcode.{format_of, is_ret}
use pipeline_lab.Isa.Encoding.{encode}
use pipeline_lab.Asm.Translator.{
  Symbols, translate, translate_format, lookup_opcode, make_jump, expect_argc, jump_target,
  resolve_label,
}
use pipeline_lab.Asm.Assembler.{symbol_table, assemble}
use pipeline_lab.Asm.Assembler.Duplicates.{Redefines}
use pipeline_lab.Asm.Assembler.Failures.{Fails, assemble-eq-err_iff}
use pipeline_lab.Asm.Tests.{to_label, end_label}

-- end:
--       j end
--       j nowhere
abbrev jumping : List Statement
jumping =
    end_label
    ∷ record {
      kind = instruction;
      name = codes "j";
      operands = to_label (codes "end") ∷ [];
      line = 5;
    }
    ∷ record {
      kind = instruction;
      name = codes "j";
      operands = to_label (codes "nowhere") ∷ [];
      line = 6;
    }
    ∷ []

abbrev nowhere : AssembleError
nowhere = record { reason = undefined_label (codes "nowhere"); line = 6 }

jumping_refused : assemble jumping ≡ err nowhere
unfolding assemble is_label find_key translate make_jump translate_format lookup_opcode expect_argc
    jump_target resolve_label format_of is_ret encode
jumping_refused = refl

twice_refused :
    assemble (end_label ∷ end_label ∷ [])
    ≡ err (record { reason = duplicate_label (codes "end"); line = 4 })
unfolding assemble is_label find_key
twice_refused = refl

assemble-eq-err_iff_example : (assemble jumping ≡ err nowhere) ↔ (
    Redefines [] jumping nowhere
    ⊎ ((table : Symbols) × (symbol_table [] 0 jumping ≡ ok table) × Fails table 0 jumping nowhere))
assemble-eq-err_iff_example = assemble-eq-err_iff jumping nowhere
