-- ===== src/Isa/Encoding.antt =====
-- include/plab/isa/encoding.hpp and src/isa/encoding.cpp: instructions as 32-bit machine words.
pub mod Fields
pub mod RoundTrip
pub mod Decoding
use pipeline_lab.Prelude.Text.{codes}
use pipeline_lab.Prelude.{
  List, ℕ, ◌+◌, ◌-◌, ◌^◌, bit_and, bit_or, bit_xor, Bool, ◌||◌, not, ltb, if◌then◌else◌, Result, ok,
  err, ◌>>=◌, ◌>>◌, guard,
}
use pipeline_lab.Prelude.Int.{ℤ, pos, negsuc, ltb_ℤ}
use pipeline_lab.Words.{u32, shl, shr, signed}
use pipeline_lab.Isa.Opcode.{
  Opcode, Format, r_type, i_type, b_type, j_type, ret, opcode_value, opcode_cast, format_of,
}
use pipeline_lab.Isa.Instruction.{Instruction, blank, is_valid_register}

-- What `encode` throws: the register named by its field, the immediate, the offset or the target.
pub data EncodingError : Type 0 where
  register_out_of_range : List ℕ → ℕ → EncodingError
  immediate_out_of_range : ℕ → EncodingError
  offset_out_of_range : ℕ → EncodingError
  target_out_of_range : ℕ → EncodingError

-- What `decode` throws.
pub data DecodingError : Type 0 where
  unknown_opcode : ℕ → DecodingError

abbrev pub imm_bits : ℕ
imm_bits = 18

-- -(1 << 17) and (1 << 17) - 1.
abbrev pub imm_min : ℤ
imm_min = negsuc (2 ^ 17 - 1)

abbrev pub imm_max : ℤ
imm_max = pos (2 ^ 17 - 1)

abbrev pub opcode_shift : ℕ
opcode_shift = 26

abbrev pub rd_shift : ℕ
rd_shift = 22

abbrev pub rs_shift : ℕ
rs_shift = 18

abbrev pub rt_shift : ℕ
rt_shift = 14

abbrev pub reg_mask : ℕ
reg_mask = 0xF

abbrev pub imm_mask : ℕ
imm_mask = 0x3FFFF

abbrev pub target_mask : ℕ
target_mask = 0x3FFFFFF

unfoldable pub sign_extend : ℕ → ℕ → ℕ
sign_extend v bits = let m = shl 1 (bits - 1) in u32 (bit_xor v m + 2 ^ 32 - m)

unfoldable pub require_reg : ℕ → List ℕ → Result EncodingError (Unit {0})
unfolding is_valid_register
require_reg r field = guard (is_valid_register r) (register_out_of_range field r)

unfoldable pub reg_field : ℕ → ℕ
reg_field r = bit_and r reg_mask

-- `imm < kImmMin || imm > kImmMax` on the signed value.
abbrev pub imm_out_of_range : ℤ → Bool
imm_out_of_range imm = ltb_ℤ imm imm_min || ltb_ℤ imm_max imm

-- The fields of each format, or-ed into the word that holds the opcode.
unfoldable pub encode_format : Format → Instruction → ℕ → Result EncodingError ℕ
unfolding require_reg
encode_format r_type inst word = do
  require_reg inst.rd (codes "rd")
  require_reg inst.rs (codes "rs")
  require_reg inst.rt (codes "rt")
  let word = bit_or word (shl (reg_field inst.rd) rd_shift)
  let word = bit_or word (shl (reg_field inst.rs) rs_shift)
  let word = bit_or word (shl (reg_field inst.rt) rt_shift)
  ok word
encode_format i_type inst word = do
  require_reg inst.rd (codes "rd")
  require_reg inst.rs (codes "rs")
  guard (not (imm_out_of_range (signed inst.imm))) (immediate_out_of_range inst.imm)
  let word = bit_or word (shl (reg_field inst.rd) rd_shift)
  let word = bit_or word (shl (reg_field inst.rs) rs_shift)
  let word = bit_or word (bit_and inst.imm imm_mask)
  ok word
encode_format b_type inst word = do
  require_reg inst.rs (codes "rs")
  require_reg inst.rt (codes "rt")
  guard (not (imm_out_of_range (signed inst.imm))) (offset_out_of_range inst.imm)
  let word = bit_or word (shl (reg_field inst.rs) rd_shift)
  let word = bit_or word (shl (reg_field inst.rt) rs_shift)
  let word = bit_or word (bit_and inst.imm imm_mask)
  ok word
encode_format j_type inst word = do
  guard (not (ltb target_mask inst.target)) (target_out_of_range inst.target)
  let word = bit_or word (bit_and inst.target target_mask)
  ok word

unfoldable pub encode : Instruction → Result EncodingError ℕ
unfolding encode_format
encode inst = encode_format (format_of inst.op) inst (shl (opcode_value inst.op) opcode_shift)

unfoldable pub decode_format : Format → Opcode → ℕ → Instruction
decode_format r_type op word = record (blank op) {
  rd = bit_and (shr word rd_shift) reg_mask;
  rs = bit_and (shr word rs_shift) reg_mask;
  rt = bit_and (shr word rt_shift) reg_mask;
}
decode_format i_type op word = record (blank op) {
  rd = bit_and (shr word rd_shift) reg_mask;
  rs = bit_and (shr word rs_shift) reg_mask;
  imm = sign_extend (bit_and word imm_mask) imm_bits;
}
decode_format b_type op word = record (blank op) {
  rs = bit_and (shr word rd_shift) reg_mask;
  rt = bit_and (shr word rs_shift) reg_mask;
  imm = sign_extend (bit_and word imm_mask) imm_bits;
}
decode_format j_type op word = record (blank op) { target = bit_and word target_mask }

unfoldable pub decode : ℕ → Result DecodingError Instruction
unfolding decode_format
decode word =
    let opv = bit_and (shr word opcode_shift) 0x3F in
    let op = opcode_cast opv in
    if ltb (opcode_value ret) opv
    then err (unknown_opcode opv)
    else ok (decode_format (format_of op) op word)
