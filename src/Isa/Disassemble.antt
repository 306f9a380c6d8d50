-- ===== src/Isa/Disassemble.antt =====
-- src/isa/instruction.cpp: the mnemonics, and an instruction as assembly text.
use pipeline_lab.Prelude.{ℕ, ◌≡◌, refl, List, ◌∷◌, ◌++◌, Bool, ◌&&◌, ◌||◌, ◌==◌, if◌then◌else◌}
use pipeline_lab.Prelude.Text.{codes, decimal, signed_decimal}
use pipeline_lab.Words.{signed}
use pipeline_lab.Isa.Opcode.{
  Opcode, add, sub, and, or, xor, sll, srl, slt, addi, andi, ori, xori, slti, lw, sw, beq, bne, blt,
  j, jal, ret, Format, r_type, i_type, b_type, j_type, format_of, is_load, is_store, is_ret,
}
use pipeline_lab.Isa.Instruction.{Instruction, blank}

unfoldable pub mnemonic_of : Opcode → List ℕ
mnemonic_of add = codes "add"
mnemonic_of sub = codes "sub"
mnemonic_of and = codes "and"
mnemonic_of or = codes "or"
mnemonic_of xor = codes "xor"
mnemonic_of sll = codes "sll"
mnemonic_of srl = codes "srl"
mnemonic_of slt = codes "slt"
mnemonic_of addi = codes "addi"
mnemonic_of andi = codes "andi"
mnemonic_of ori = codes "ori"
mnemonic_of xori = codes "xori"
mnemonic_of slti = codes "slti"
mnemonic_of lw = codes "lw"
mnemonic_of sw = codes "sw"
mnemonic_of beq = codes "beq"
mnemonic_of bne = codes "bne"
mnemonic_of blt = codes "blt"
mnemonic_of j = codes "j"
mnemonic_of jal = codes "jal"
mnemonic_of ret = codes "ret"

unfoldable pub is_add : Opcode → Bool
is_add add = Bool.true
is_add _ = Bool.false

unfoldable pub reg : ℕ → List ℕ
unfolding decimal
reg r = b'r' ∷ decimal r

unfoldable pub disassemble_format : Format → Instruction → List ℕ
unfolding is_add reg signed_decimal
disassemble_format r_type inst =
    if is_add inst.op && inst.rd == 0 && inst.rs == 0 && inst.rt == 0
    then codes "nop"
    else mnemonic_of inst.op
      ++ codes " "
      ++ reg inst.rd
      ++ codes ", "
      ++ reg inst.rs
      ++ codes ", "
      ++ reg inst.rt
disassemble_format i_type inst =
    if is_load inst.op || is_store inst.op
    then mnemonic_of inst.op
      ++ codes " "
      ++ reg inst.rd
      ++ codes ", "
      ++ signed_decimal (signed inst.imm)
      ++ codes "("
      ++ reg inst.rs
      ++ codes ")"
    else mnemonic_of inst.op
      ++ codes " "
      ++ reg inst.rd
      ++ codes ", "
      ++ reg inst.rs
      ++ codes ", "
      ++ signed_decimal (signed inst.imm)
disassemble_format b_type inst =
    mnemonic_of inst.op
    ++ codes " "
    ++ reg inst.rs
    ++ codes ", "
    ++ reg inst.rt
    ++ codes ", "
    ++ signed_decimal (signed inst.imm)
disassemble_format j_type inst =
    if is_ret inst.op then codes "ret" else mnemonic_of inst.op ++ codes " " ++ decimal inst.target

unfoldable pub disassemble : Instruction → List ℕ
unfolding disassemble_format
disassemble inst = disassemble_format (format_of inst.op) inst

branch_text : disassemble (record (blank bne) { rs = 2; imm = 0xFFFFFFF8 }) ≡ codes "bne r2, r0, -8"
unfolding disassemble format_of mnemonic_of
branch_text = refl
