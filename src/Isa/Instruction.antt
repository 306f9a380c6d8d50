-- ===== src/Isa/Instruction.antt =====
-- include/plab/isa/instruction.hpp, include/plab/isa/registers.hpp: the decoded instruction, and
-- the register conventions.
use pipeline_lab.Prelude.{ℕ, Bool, ltb}
use pipeline_lab.Isa.Opcode.{Opcode}

-- `imm` is the bit pattern of the 32-bit signed immediate.
pub record Instruction : Type 0 where
  pub op : Opcode
  pub rd : ℕ
  pub rs : ℕ
  pub rt : ℕ
  pub imm : ℕ
  pub target : ℕ

-- `Instruction inst;` with a value for the opcode: every other field is zero.
abbrev pub blank : Opcode → Instruction
blank op = record { op = op; rd = 0; rs = 0; rt = 0; imm = 0; target = 0 }

abbrev pub num_registers : ℕ
num_registers = 16

abbrev pub zero_reg : ℕ
zero_reg = 0

abbrev pub return_addr_reg : ℕ
return_addr_reg = 15

unfoldable pub is_valid_register : ℕ → Bool
is_valid_register r = ltb r num_registers
