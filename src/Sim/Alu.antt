-- ===== src/Sim/Alu.antt =====
-- src/sim/alu.cpp: arithmetic and branch conditions on bit patterns, shared by both simulators.
use pipeline_lab.Prelude.{
  ℕ, ◌+◌, ◌-◌, ◌^◌, bit_and, bit_or, bit_xor, Bool, false, not, ◌==◌, if◌then◌else◌,
}
use pipeline_lab.Words.{u32, shl, shr, signed_lt}
use pipeline_lab.Isa.Opcode.{
  Opcode, add, sub, and, or, xor, sll, srl, slt, addi, andi, ori, xori, slti, beq, bne, blt,
}

unfoldable pub alu_result : Opcode → ℕ → ℕ → ℕ
alu_result add a b = u32 (a + b)
alu_result addi a b = u32 (a + b)
alu_result sub a b = u32 (a + 2 ^ 32 - b)
alu_result and a b = bit_and a b
alu_result andi a b = bit_and a b
alu_result or a b = bit_or a b
alu_result ori a b = bit_or a b
alu_result xor a b = bit_xor a b
alu_result xori a b = bit_xor a b
alu_result sll a b = shl a (bit_and b 31)
alu_result srl a b = shr a (bit_and b 31)
alu_result slt a b = if signed_lt a b then 1 else 0
alu_result slti a b = if signed_lt a b then 1 else 0
alu_result _ a b = 0

unfoldable pub branch_taken : Opcode → ℕ → ℕ → Bool
branch_taken beq a b = a == b
branch_taken bne a b = not (a == b)
branch_taken blt a b = signed_lt a b
branch_taken _ a b = false
