-- ===== src/Isa/Opcode.antt =====
-- include/plab/isa/instruction.hpp and src/isa/instruction.cpp: the opcodes, their encoding formats
-- and the predicates on them.
use pipeline_lab.Prelude.{
  ℕ, ◌≤◌, ◌≡◌, refl, arith, passes_upto, passes_upto_all, ==_iff, ◌==◌, Bool, true, false, List, [],
  ◌∷◌, get_or,
}

-- `enum class Opcode`, in the order of its values.
pub data Opcode : Type 0 where
  add sub and or xor sll srl slt : Opcode
  addi andi ori xori slti lw sw : Opcode
  beq bne blt : Opcode
  j jal ret : Opcode

pub data Format : Type 0 where
  r_type i_type b_type j_type : Format

-- `static_cast<std::uint32_t>(op)`.
unfoldable pub opcode_value : Opcode → ℕ
opcode_value add = 0
opcode_value sub = 1
opcode_value and = 2
opcode_value or = 3
opcode_value xor = 4
opcode_value sll = 5
opcode_value srl = 6
opcode_value slt = 7
opcode_value addi = 8
opcode_value andi = 9
opcode_value ori = 10
opcode_value xori = 11
opcode_value slti = 12
opcode_value lw = 13
opcode_value sw = 14
opcode_value beq = 15
opcode_value bne = 16
opcode_value blt = 17
opcode_value j = 18
opcode_value jal = 19
opcode_value ret = 20

abbrev pub all_opcodes : List Opcode
all_opcodes =
    add ∷ sub ∷ and ∷ or ∷ xor ∷ sll ∷ srl ∷ slt ∷ addi ∷ andi ∷ ori ∷ xori ∷ slti ∷ lw ∷ sw ∷ beq
    ∷ bne ∷ blt ∷ j ∷ jal ∷ ret ∷ []

-- `static_cast<Opcode>(opv)`; the decoder casts only values up to that of `ret`.
unfoldable pub opcode_cast : ℕ → Opcode
opcode_cast opv = get_or all_opcodes opv add

unfoldable pub format_of : Opcode → Format
format_of addi = i_type
format_of andi = i_type
format_of ori = i_type
format_of xori = i_type
format_of slti = i_type
format_of lw = i_type
format_of sw = i_type
format_of beq = b_type
format_of bne = b_type
format_of blt = b_type
format_of j = j_type
format_of jal = j_type
format_of ret = j_type
format_of _ = r_type

unfoldable pub writes_register : Opcode → Bool
writes_register sw = false
writes_register beq = false
writes_register bne = false
writes_register blt = false
writes_register j = false
writes_register ret = false
writes_register _ = true

unfoldable pub is_branch : Opcode → Bool
is_branch beq = true
is_branch bne = true
is_branch blt = true
is_branch _ = false

unfoldable pub is_jump : Opcode → Bool
is_jump j = true
is_jump jal = true
is_jump _ = false

unfoldable pub is_load : Opcode → Bool
is_load lw = true
is_load _ = false

unfoldable pub is_store : Opcode → Bool
is_store sw = true
is_store _ = false

-- `op == Opcode::JAL` and `op == Opcode::RET`.
unfoldable pub is_jal : Opcode → Bool
is_jal jal = true
is_jal _ = false

unfoldable pub is_ret : Opcode → Bool
is_ret ret = true
is_ret _ = false

-- The values fit the 6-bit field, and the cast inverts them.
pub opcode_value-le : (op : Opcode) → opcode_value op ≤ 20
unfolding opcode_value
opcode_value-le add = omega arith
opcode_value-le _ = omega arith

pub opcode_cast-opcode_value : (op : Opcode) → opcode_cast (opcode_value op) ≡ op
unfolding opcode_cast opcode_value
opcode_cast-opcode_value add = refl
opcode_cast-opcode_value _ = refl

opcodes_pass : passes_upto (λ v. opcode_value (opcode_cast v) == v) 20 ≡ true
unfolding passes_upto opcode_value opcode_cast
opcodes_pass = refl

pub opcode_value-opcode_cast : (v : ℕ) → v ≤ 20 → opcode_value (opcode_cast v) ≡ v
opcode_value-opcode_cast v h = (==_iff _ v).0 (passes_upto_all _ 20 opcodes_pass h)
