-- ===== src/Isa/Encoding/Fields.antt =====
-- The field arithmetic of src/isa/encoding.cpp: what each format packs and unpacks, as sums and
-- remainders, and the sign extension.
use pipeline_lab.Prelude.{
  List, ℕ, ◌+◌, ◌-◌, ◌*◌, ◌%◌, ◌^◌, ◌<◌, ◌≡◌, bit_or, arith, false, ok, ltb, if◌then◌else◌,
}
use pipeline_lab.Words.{IsWord, shl, signed}
use pipeline_lab.Words.Bits.{bit_or-sum, bit_and-mask, bit_xor-pow}
use pipeline_lab.Isa.Encoding.{require_reg, sign_extend, reg_field, imm_out_of_range}

pub reg_field_lem : (r : ℕ) → r < 16 → reg_field r ≡ r
unfolding reg_field
reg_field_lem r h = omega (arith, bit_and-mask 4 r)

-- Three register fields below an opcode.
pub pack_r :
    (op rd rs rt : ℕ)
    → op < 64
    → rd < 16
    → rs < 16
    → rt < 16
    → bit_or (bit_or (bit_or (shl op 26) (shl rd 22)) (shl rs 18)) (shl rt 14)
      ≡ op * 2 ^ 26 + rd * 2 ^ 22 + rs * 2 ^ 18 + rt * 2 ^ 14
pack_r op rd rs rt ho hd hs ht =
    rw
      (
        bit_or-sum 26 (shl op 26) (shl rd 22) (omega arith) (omega arith),
        bit_or-sum 22 (shl op 26 + shl rd 22) (shl rs 18) (omega arith) (omega arith),
        bit_or-sum 18 (shl op 26 + shl rd 22 + shl rs 18) (shl rt 14) (omega arith) (omega arith),
      )
      (omega arith)

-- Two register fields and 18 low bits.
pub pack_i :
    (op ra rb low : ℕ)
    → op < 64
    → ra < 16
    → rb < 16
    → low < 2 ^ 18
    → bit_or (bit_or (bit_or (shl op 26) (shl ra 22)) (shl rb 18)) low
      ≡ op * 2 ^ 26 + ra * 2 ^ 22 + rb * 2 ^ 18 + low
pack_i op ra rb low ho ha hb hl =
    rw
      (
        bit_or-sum 26 (shl op 26) (shl ra 22) (omega arith) (omega arith),
        bit_or-sum 22 (shl op 26 + shl ra 22) (shl rb 18) (omega arith) (omega arith),
        bit_or-sum 18 (shl op 26 + shl ra 22 + shl rb 18) low (omega arith) (omega arith),
      )
      (omega arith)

pub pack_j : (op low : ℕ) → op < 64 → low < 2 ^ 26 → bit_or (shl op 26) low ≡ op * 2 ^ 26 + low
pack_j op low ho hl = omega (arith, bit_or-sum 26 (shl op 26) low (omega arith) (omega arith))

-- Sign extension of 18 bits, as arithmetic.
pub sign_extend_18 :
    (v : ℕ) → v < 2 ^ 18 → sign_extend v 18 ≡ (if ltb v (2 ^ 17) then v else v + 2 ^ 32 - 2 ^ 18)
unfolding sign_extend
sign_extend_18 v h = ground (arith, bit_xor-pow 17 v h)

-- A 32-bit pattern whose value fits into 18 bits is the extension of its low 18 bits.
pub sign_extend_low :
    (imm : ℕ)
    → IsWord imm
    → imm_out_of_range (signed imm) ≡ false
    → sign_extend (imm % 2 ^ 18) 18 ≡ imm
sign_extend_low imm w fits = ground (arith, sign_extend_18 (imm % 2 ^ 18))

pub require_reg_lem : (r : ℕ) → r < 16 → (field : List ℕ) → require_reg r field ≡ ok tt
unfolding require_reg
require_reg_lem r h field = ground arith
