-- ===== src/Asm/Listing/Translated.antt =====
-- The translator of src/asm/assembler.cpp on the lines that `disassemble` prints.
use pipeline_lab.Prelude.{
  ℕ, ◌^◌, ◌<◌, ◌≡◌, refl, sym, ap, ◌∙◌, arith, List, [], ◌∷◌, Bool-cases, inl, inr, true, false,
  ◌&&◌, ◌||◌, ◌==◌, ok, some,
}
use pipeline_lab.Prelude.Text.{codes}
use pipeline_lab.Prelude.Int.{pos, ltb_ℤ}
use pipeline_lab.Words.{u32, signed, IsWord, to_word}
use pipeline_lab.Isa.Opcode.{
  Opcode, add, ret, Format, r_type, i_type, b_type, j_type, format_of, is_load, is_store, is_ret,
}
use pipeline_lab.Isa.Instruction.{Instruction, blank}
use pipeline_lab.Isa.Disassemble.{mnemonic_of, is_add}
use pipeline_lab.Isa.Encoding.RoundTrip.{Fits, format_fields}
use pipeline_lab.Isa.Encoding.{imm_out_of_range}
use pipeline_lab.Asm.Program.{Text}
use pipeline_lab.Asm.Parser.{to_lower}
use pipeline_lab.Asm.Statement.{Statement, is_label, same_text, find_key}
use pipeline_lab.Asm.Translator.{
  Symbols, lookup_opcode, translate, translate_format, make_nop, make_r, make_i_alu, make_mem,
  make_branch, make_jump, expect_argc, reg, imm, displacement, branch_offset, jump_target,
}
use pipeline_lab.Asm.Listing.Items.{
  Arg, Item, instruction_item, instruction_statement, item_statements,
}
use pipeline_lab.Asm.Listing.Instructions.{
  mnemonic_first, mnemonic_rest, named, format_line, instruction_line, IsListed,
}

-- A mnemonic is looked up as it is.
mnemonic_found :
    (op : Opcode)
    → let name = to_lower (mnemonic_first op ∷ mnemonic_rest op) in
      (same_text name (codes "nop") ≡ false)
      × (same_text name (codes "mov") ≡ false)
      × (same_text name (codes "li") ≡ false)
      × (lookup_opcode name ≡ some op)
unfolding mnemonic_of to_lower same_text lookup_opcode find_key
mnemonic_found add = (refl, refl, refl, refl)
mnemonic_found _ = (refl, refl, refl, refl)

is_add-eq : (op : Opcode) → is_add op ≡ true → op ≡ add
unfolding is_add
is_add-eq add h = refl
is_add-eq _ h = cc

is_ret-eq : (op : Opcode) → is_ret op ≡ true → op ≡ ret
unfolding is_ret
is_ret-eq ret h = refl
is_ret-eq _ h = cc

-- The statement of a line, and the instruction that it is translated to.
pub record Translates (symbols : Symbols) (line address : ℕ) (i : Item) (inst : Instruction)
    : Type 0 where
  pub statement : Statement
  pub placed : (rest : List Statement) → item_statements line i rest ≡ statement ∷ rest
  pub is_code : is_label statement.kind ≡ false
  pub own_line : statement.line ≡ line
  pub translated : translate symbols statement address ≡ ok inst

module _ (symbols : Symbols) (line address : ℕ) where
  translate-named :
      (op : Opcode) (args : List Arg)
      → let s = instruction_statement line (mnemonic_first op ∷ mnemonic_rest op) args in
        translate symbols s address ≡ translate_format (format_of op) symbols op s address
  unfolding translate instruction_statement
  translate-named op args =
      let (nop, mov, li, found) = mnemonic_found op in rw (nop, mov, li, found) refl

  translated_line :
      (c : ℕ) (cs : Text) (args : List Arg) {inst : Instruction}
      → translate symbols (instruction_statement line (c ∷ cs) args) address ≡ ok inst
      → Translates symbols line address (instruction_item c cs args) inst
  unfolding instruction_statement is_label
  translated_line c cs args e = record {
    statement = instruction_statement line (c ∷ cs) args;
    placed = λ rest. refl;
    is_code = refl;
    own_line = refl;
    translated = e;
  }

  named_line :
      (op : Opcode) (args : List Arg) {inst : Instruction}
      → translate_format
          (format_of op)
          symbols
          op
          (instruction_statement line (mnemonic_first op ∷ mnemonic_rest op) args)
          address
        ≡ ok inst
      → Translates symbols line address (named op args) inst
  named_line op args e =
      translated_line (mnemonic_first op) (mnemonic_rest op) args (translate-named op args ∙ e)

  nop_translated :
      translate symbols (instruction_statement line (codes "nop") []) address ≡ ok (blank add)
  unfolding translate instruction_statement to_lower same_text make_nop
  nop_translated = refl

  ret_translated :
      translate symbols (instruction_statement line (codes "ret") []) address ≡ ok (blank ret)
  unfolding translate instruction_statement to_lower same_text lookup_opcode find_key format_of
      translate_format make_jump expect_argc is_ret
  ret_translated = refl

  to_word-signed : (imm : ℕ) → IsWord imm → to_word (signed imm) ≡ imm
  to_word-signed imm h = ground arith

  r_line :
      (inst : Instruction)
      → format_of inst.op ≡ r_type
      → format_fields r_type inst ≡ inst
      → Translates symbols line address (format_line r_type inst) inst
  unfolding translate_format make_r expect_argc reg instruction_statement
  r_line inst f whole =
      elim (Bool-cases (is_add inst.op && inst.rd == 0 && inst.rs == 0 && inst.rt == 0)) [
        | inl nop ↦
            let op_add = is_add-eq inst.op (ground arith) in
            let no_rd : inst.rd ≡ 0 = ground arith in
            let no_rs : inst.rs ≡ 0 = ground arith in
            let no_rt : inst.rt ≡ 0 = ground arith in
            let same : format_fields r_type inst ≡ blank add = λ i. record {
              op = op_add i;
              rd = no_rd i;
              rs = no_rs i;
              rt = no_rt i;
              imm = 0;
              target = 0;
            } in
            rw nop
              (translated_line b'n' (codes "op") [] (nop_translated ∙ ap ok (sym same ∙ whole)))
        | inr other ↦ rw other (named_line inst.op _ (rw f (ap ok whole)))
      ]

  i_line :
      (inst : Instruction)
      → format_of inst.op ≡ i_type
      → format_fields i_type inst ≡ inst
      → IsWord inst.imm
      → imm_out_of_range (signed inst.imm) ≡ false
      → Translates symbols line address (format_line i_type inst) inst
  unfolding translate_format make_mem make_i_alu expect_argc reg imm displacement
      instruction_statement
  i_line inst f whole h fits =
      let value = to_word-signed inst.imm h in
      elim (Bool-cases (is_load inst.op || is_store inst.op)) [
        | inl mem ↦ rw mem (named_line inst.op _ (rw (f, mem, fits, value) (ap ok whole)))
        | inr alu ↦ rw alu (named_line inst.op _ (rw (f, alu, fits, value) (ap ok whole)))
      ]

  b_line :
      (inst : Instruction)
      → format_of inst.op ≡ b_type
      → format_fields b_type inst ≡ inst
      → IsWord inst.imm
      → imm_out_of_range (signed inst.imm) ≡ false
      → Translates symbols line address (format_line b_type inst) inst
  unfolding translate_format make_branch expect_argc reg branch_offset instruction_statement
  b_line inst f whole h fits =
      let value = to_word-signed inst.imm h in
      named_line inst.op _ (rw (f, fits, value) (ap ok whole))

  j_line :
      (inst : Instruction)
      → format_of inst.op ≡ j_type
      → format_fields j_type inst ≡ inst
      → inst.target < 2 ^ 26
      → (is_ret inst.op ≡ true → inst.target ≡ 0)
      → Translates symbols line address (format_line j_type inst) inst
  unfolding translate_format make_jump expect_argc jump_target instruction_statement
  j_line inst f whole small plain = elim (Bool-cases (is_ret inst.op)) [
    | inl returns ↦
        let op_ret = is_ret-eq inst.op returns in
        let no_target = plain returns in
        let same : format_fields j_type inst ≡ blank ret =
          λ i. record { op = op_ret i; rd = 0; rs = 0; rt = 0; imm = 0; target = no_target i } in
        rw returns
          (translated_line b'r' (codes "et") [] (ret_translated ∙ ap ok (sym same ∙ whole)))
    | inr jump ↦
        let value : u32 inst.target ≡ inst.target = omega arith in
        let counts : ltb_ℤ (pos inst.target) (pos 0) ≡ false = ground arith in
        rw jump (named_line inst.op _ (rw (f, jump, counts, value) (ap ok whole)))
  ]

  pub instruction_line-Translates :
      (inst : Instruction)
      → IsListed inst
      → Translates symbols line address (instruction_line inst) inst
  instruction_line-Translates inst listed =
      go (format_of inst.op) refl listed.decoded.fits listed.decoded.rest_zero
    where
      go :
          (f : Format)
          → format_of inst.op ≡ f
          → Fits f inst
          → format_fields f inst ≡ inst
          → Translates symbols line address (format_line f inst) inst
      go r_type e fits whole = r_line inst e whole
      go i_type e fits whole = i_line inst e whole listed.decoded.imm_word fits.2
      go b_type e fits whole = b_line inst e whole listed.decoded.imm_word fits.2
      go j_type e fits whole = j_line inst e whole fits listed.plain_ret
