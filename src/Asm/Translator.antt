-- ===== src/Asm/Translator.antt =====
-- The class `Translator` of src/asm/assembler.cpp: one parsed statement to one instruction. Its
-- fields `symbols_` and `line_` are arguments.
pub mod Laws
pub mod Targets
pub mod Fitting
use pipeline_lab.Prelude.{
  ℕ, List, [], ◌∷◌, length, get_or, Bool, true, false, not, ◌==◌, ◌||◌, if◌then◌else◌, Option, none,
  some, Result, ok, ◌>>=◌, ◌>>◌, guard,
}
use pipeline_lab.Prelude.Text.{codes}
use pipeline_lab.Prelude.Int.{ℤ, pos, ◌-ℤ◌, ltb_ℤ}
use pipeline_lab.Words.{to_word}
use pipeline_lab.Isa.Opcode.{
  Opcode, add, sub, and, or, xor, sll, srl, slt, addi, andi, ori, xori, slti, lw, sw, beq, bne, blt,
  j, jal, ret, Format, r_type, i_type, b_type, j_type, format_of, is_load, is_store, is_ret,
}
use pipeline_lab.Isa.Instruction.{Instruction, blank}
use pipeline_lab.Isa.Encoding.{imm_out_of_range}
use pipeline_lab.Asm.Program.{Text}
use pipeline_lab.Asm.Statement.{
  Operand, OperandKind, register, immediate, label, memory, no_operand, Statement, Reason,
  AssembleError, fail, find_key, same_text, unknown_instruction, operand_count, expected_register,
  expected_immediate, expected_memory, immediate_out_of_range, displacement_out_of_range,
  undefined_label, branch_target_kind, branch_too_far, jump_target_kind, negative_target,
}

abbrev pub Symbols : Type 0
Symbols = List (Text × ℕ)

abbrev pub opcode_table : List (Text × Opcode)
opcode_table =
    (codes "add", add)
    ∷ (codes "sub", sub)
    ∷ (codes "and", and)
    ∷ (codes "or", or)
    ∷ (codes "xor", xor)
    ∷ (codes "sll", sll)
    ∷ (codes "srl", srl)
    ∷ (codes "slt", slt)
    ∷ (codes "addi", addi)
    ∷ (codes "andi", andi)
    ∷ (codes "ori", ori)
    ∷ (codes "xori", xori)
    ∷ (codes "slti", slti)
    ∷ (codes "lw", lw)
    ∷ (codes "sw", sw)
    ∷ (codes "beq", beq)
    ∷ (codes "bne", bne)
    ∷ (codes "blt", blt)
    ∷ (codes "j", j)
    ∷ (codes "jal", jal)
    ∷ (codes "ret", ret)
    ∷ (codes "halt", ret)
    ∷ []

unfoldable pub lookup_opcode : Text → Option Opcode
lookup_opcode name = find_key opcode_table name

-- `s.operands[i]`; every use is behind `expect_argc`.
abbrev pub operand_at : Statement → ℕ → Operand
operand_at s i = get_or s.operands i no_operand

unfoldable pub expect_argc : ℕ → Statement → ℕ → Result AssembleError (Unit {0})
expect_argc line s n =
    guard (length s.operands == n)
      (record { reason = operand_count s.name n (length s.operands); line = line })

unfoldable pub reg : ℕ → Operand → Result AssembleError ℕ
reg line op = elim op.kind [ register ↦ ok op.reg | _ ↦ fail line expected_register ]

-- The value in range, as the bit pattern of an `std::int32_t`.
unfoldable pub imm : ℕ → Operand → Result AssembleError ℕ
imm line op = elim op.kind [
  | immediate ↦
      if imm_out_of_range op.imm
      then fail line (immediate_out_of_range op.imm)
      else ok (to_word op.imm)
  | _ ↦ fail line expected_immediate
]

unfoldable pub resolve_label : Symbols → ℕ → Text → Result AssembleError ℕ
resolve_label symbols line name = elim (find_key symbols name) [
  | none ↦ fail line (undefined_label name)
  | some address ↦ ok address
]

unfoldable pub make_nop : Instruction
make_nop = blank add

unfoldable pub make_mov : ℕ → Statement → Result AssembleError Instruction
make_mov line s = do
  expect_argc line s 2
  rd ← reg line (operand_at s 0)
  rs ← reg line (operand_at s 1)
  ok (record (blank add) { rd = rd; rs = rs })

unfoldable pub make_li : ℕ → Statement → Result AssembleError Instruction
make_li line s = do
  expect_argc line s 2
  rd ← reg line (operand_at s 0)
  value ← imm line (operand_at s 1)
  ok (record (blank addi) { rd = rd; imm = value })

unfoldable pub make_r : ℕ → Opcode → Statement → Result AssembleError Instruction
make_r line op s = do
  expect_argc line s 3
  rd ← reg line (operand_at s 0)
  rs ← reg line (operand_at s 1)
  rt ← reg line (operand_at s 2)
  ok (record (blank op) { rd = rd; rs = rs; rt = rt })

unfoldable pub make_i_alu : ℕ → Opcode → Statement → Result AssembleError Instruction
make_i_alu line op s = do
  expect_argc line s 3
  rd ← reg line (operand_at s 0)
  rs ← reg line (operand_at s 1)
  value ← imm line (operand_at s 2)
  ok (record (blank op) { rd = rd; rs = rs; imm = value })

-- The displacement and the base of a memory operand.
unfoldable pub displacement : ℕ → Operand → Result AssembleError ℕ
displacement line mem = elim mem.kind [
  | memory ↦
      if imm_out_of_range mem.imm
      then fail line (displacement_out_of_range mem.imm)
      else ok (to_word mem.imm)
  | _ ↦ fail line expected_memory
]

unfoldable pub make_mem : ℕ → Opcode → Statement → Result AssembleError Instruction
make_mem line op s = do
  expect_argc line s 2
  value_or_dest ← reg line (operand_at s 0)
  disp ← displacement line (operand_at s 1)
  ok (record (blank op) { rd = value_or_dest; rs = (operand_at s 1).reg; imm = disp })

-- The offset that a branch target stands for, before the range check.
unfoldable pub branch_offset : Symbols → ℕ → ℕ → Operand → Result AssembleError ℤ
unfolding ◌-ℤ◌
branch_offset symbols line address tgt = elim tgt.kind [
  | label ↦ resolve_label symbols line tgt.label >>= λ target. ok (pos target -ℤ pos address)
  | immediate ↦ ok tgt.imm
  | _ ↦ fail line branch_target_kind
]

unfoldable pub make_branch : Symbols → ℕ → Opcode → Statement → ℕ → Result AssembleError Instruction
make_branch symbols line op s address = do
  expect_argc line s 3
  rs ← reg line (operand_at s 0)
  rt ← reg line (operand_at s 1)
  offset ← branch_offset symbols line address (operand_at s 2)
  guard (not (imm_out_of_range offset)) (record { reason = branch_too_far offset; line = line })
  ok (record (blank op) { rs = rs; rt = rt; imm = to_word offset })

unfoldable pub jump_target : Symbols → ℕ → Operand → Result AssembleError ℕ
jump_target symbols line tgt = elim tgt.kind [
  | label ↦ resolve_label symbols line tgt.label
  | immediate ↦ if ltb_ℤ tgt.imm (pos 0) then fail line negative_target else ok (to_word tgt.imm)
  | _ ↦ fail line jump_target_kind
]

unfoldable pub make_jump : Symbols → ℕ → Opcode → Statement → Result AssembleError Instruction
make_jump symbols line op s = if is_ret op then (do expect_argc line s 0; ok (blank op)) else (do
  expect_argc line s 1
  target ← jump_target symbols line (operand_at s 0)
  ok (record (blank op) { target = target }))

-- The `switch` on the format of a real instruction.
unfoldable pub translate_format :
    Format → Symbols → Opcode → Statement → ℕ → Result AssembleError Instruction
translate_format r_type symbols op s address = make_r s.line op s
translate_format i_type symbols op s address =
    if is_load op || is_store op then make_mem s.line op s else make_i_alu s.line op s
translate_format b_type symbols op s address = make_branch symbols s.line op s address
translate_format j_type symbols op s address = make_jump symbols s.line op s

unfoldable pub translate : Symbols → Statement → ℕ → Result AssembleError Instruction
translate symbols s address =
    if same_text s.name (codes "nop")
    then ok make_nop
    else if same_text s.name (codes "mov")
    then make_mov s.line s
    else if same_text s.name (codes "li")
    then make_li s.line s
    else elim (lookup_opcode s.name) [
      | none ↦ fail s.line (unknown_instruction s.name)
      | some op ↦ translate_format (format_of op) symbols op s address
    ]
