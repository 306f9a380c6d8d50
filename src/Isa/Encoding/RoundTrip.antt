-- ===== src/Isa/Encoding/RoundTrip.antt =====
-- src/isa/encoding.cpp: `encode` and `decode` undo one another.
use mathlib.Core.Logic.{◌↔◌}
use pipeline_lab.Prelude.{
  ℕ, ◌+◌, ◌*◌, ◌/◌, ◌%◌, ◌^◌, ◌<◌, ◌≡◌, sym, ap, ◌∙◌, ok-injective, arith, Result, ok, err, ltb,
  if◌then◌else◌, false,
}
use pipeline_lab.Words.{IsWord, shl, signed}
use pipeline_lab.Words.Bits.{bit_and-mask}
use pipeline_lab.Isa.Opcode.{
  Opcode, Format, r_type, i_type, b_type, j_type, opcode_value, opcode_cast, format_of,
  opcode_value-le, opcode_cast-opcode_value,
}
use pipeline_lab.Isa.Instruction.{Instruction, blank}
use pipeline_lab.Isa.Encoding.{
  encode, decode, encode_format, decode_format, target_mask, imm_out_of_range, DecodingError,
  unknown_opcode, sign_extend,
}
use pipeline_lab.Isa.Encoding.Fields.{
  require_reg_lem, reg_field_lem, pack_r, pack_i, pack_j, sign_extend_low,
}

-- The fields that a format has no room for are zero in a decoded instruction.
abbrev pub format_fields : Format → Instruction → Instruction
format_fields r_type inst = record (blank inst.op) { rd = inst.rd; rs = inst.rs; rt = inst.rt }
format_fields i_type inst = record (blank inst.op) { rd = inst.rd; rs = inst.rs; imm = inst.imm }
format_fields b_type inst = record (blank inst.op) { rs = inst.rs; rt = inst.rt; imm = inst.imm }
format_fields j_type inst = record (blank inst.op) { target = inst.target }

-- The fields that `encode` can represent, by format.
abbrev pub Fits : Format → Instruction → Type 0
Fits r_type inst = (inst.rd < 16) × (inst.rs < 16) × (inst.rt < 16)
Fits i_type inst = (inst.rd < 16) × (inst.rs < 16) × (imm_out_of_range (signed inst.imm) ≡ false)
Fits b_type inst = (inst.rs < 16) × (inst.rt < 16) × (imm_out_of_range (signed inst.imm) ≡ false)
Fits j_type inst = inst.target < 2 ^ 26

-- The word that the fields add up to.
abbrev pub packed : Format → Instruction → ℕ
packed r_type inst =
    opcode_value inst.op * 2 ^ 26 + inst.rd * 2 ^ 22 + inst.rs * 2 ^ 18 + inst.rt * 2 ^ 14
packed i_type inst =
    opcode_value inst.op * 2 ^ 26 + inst.rd * 2 ^ 22 + inst.rs * 2 ^ 18 + inst.imm % 2 ^ 18
packed b_type inst =
    opcode_value inst.op * 2 ^ 26 + inst.rs * 2 ^ 22 + inst.rt * 2 ^ 18 + inst.imm % 2 ^ 18
packed j_type inst = opcode_value inst.op * 2 ^ 26 + inst.target

-- What `decode` reads, as quotients and remainders.
abbrev pub unpacked : Format → Opcode → ℕ → Instruction
unpacked r_type op w = record (blank op) {
  rd = w / 2 ^ 22 % 16;
  rs = w / 2 ^ 18 % 16;
  rt = w / 2 ^ 14 % 16;
}
unpacked i_type op w = record (blank op) {
  rd = w / 2 ^ 22 % 16;
  rs = w / 2 ^ 18 % 16;
  imm = sign_extend (w % 2 ^ 18) 18;
}
unpacked b_type op w = record (blank op) {
  rs = w / 2 ^ 22 % 16;
  rt = w / 2 ^ 18 % 16;
  imm = sign_extend (w % 2 ^ 18) 18;
}
unpacked j_type op w = record (blank op) { target = w % 2 ^ 26 }

decode_format-unpacked : (f : Format) (op : Opcode) (w : ℕ) → decode_format f op w ≡ unpacked f op w
unfolding decode_format
decode_format-unpacked r_type op w =
    rw (bit_and-mask 4 (w / 2 ^ 22), bit_and-mask 4 (w / 2 ^ 18), bit_and-mask 4 (w / 2 ^ 14))
decode_format-unpacked i_type op w =
    rw (bit_and-mask 4 (w / 2 ^ 22), bit_and-mask 4 (w / 2 ^ 18), bit_and-mask 18 w)
decode_format-unpacked b_type op w =
    rw (bit_and-mask 4 (w / 2 ^ 22), bit_and-mask 4 (w / 2 ^ 18), bit_and-mask 18 w)
decode_format-unpacked j_type op w = rw (bit_and-mask 26 w)

encode_format-packed :
    (f : Format) (inst : Instruction)
    → Fits f inst
    → encode_format f inst (shl (opcode_value inst.op) 26) ≡ ok (packed f inst)
unfolding encode_format
encode_format-packed r_type inst (hd, hs, ht) =
    let small : opcode_value inst.op < 64 = omega (arith, opcode_value-le inst.op) in
    rw
      (
        require_reg_lem inst.rd hd,
        require_reg_lem inst.rs hs,
        require_reg_lem inst.rt ht,
        reg_field_lem inst.rd hd,
        reg_field_lem inst.rs hs,
        reg_field_lem inst.rt ht,
      )
      (ap ok (pack_r (opcode_value inst.op) inst.rd inst.rs inst.rt small hd hs ht))
encode_format-packed i_type inst (hd, hs, hi) =
    let small : opcode_value inst.op < 64 = omega (arith, opcode_value-le inst.op) in
    rw
      (
        require_reg_lem inst.rd hd,
        require_reg_lem inst.rs hs,
        hi,
        reg_field_lem inst.rd hd,
        reg_field_lem inst.rs hs,
        bit_and-mask 18 inst.imm,
      )
      (ap ok (pack_i (opcode_value inst.op) inst.rd inst.rs _ small hd hs (omega arith)))
encode_format-packed b_type inst (hs, ht, hi) =
    let small : opcode_value inst.op < 64 = omega (arith, opcode_value-le inst.op) in
    rw
      (
        require_reg_lem inst.rs hs,
        require_reg_lem inst.rt ht,
        hi,
        reg_field_lem inst.rs hs,
        reg_field_lem inst.rt ht,
        bit_and-mask 18 inst.imm,
      )
      (ap ok (pack_i (opcode_value inst.op) inst.rs inst.rt _ small hs ht (omega arith)))
encode_format-packed j_type inst h =
    let small : opcode_value inst.op < 64 = omega (arith, opcode_value-le inst.op) in
    let whole : inst.target % 2 ^ 26 ≡ inst.target = omega arith in
    let fits : ltb target_mask inst.target ≡ false = ground arith in
    rw (fits, bit_and-mask 26 inst.target, whole)
      (ap ok (pack_j (opcode_value inst.op) inst.target small h))

-- Only what fits is encoded.
encode_format-Fits :
    (f : Format) (inst : Instruction) (word w : ℕ) → encode_format f inst word ≡ ok w → Fits f inst
unfolding encode_format
encode_format-Fits r_type inst word w h = ground arith
encode_format-Fits i_type inst word w h = ground arith
encode_format-Fits b_type inst word w h = ground arith
encode_format-Fits j_type inst word w h = ground arith

-- `encode` succeeds exactly on the instructions whose fields fit their format, and its word is the
-- sum of the fields, each at its own bit position.
pub encode-eq-ok_iff :
    (inst : Instruction) (w : ℕ)
    → (encode inst ≡ ok w) ↔ (Fits (format_of inst.op) inst × (w ≡ packed (format_of inst.op) inst))
unfolding encode
encode-eq-ok_iff inst w = (
  (λ h.
      let fits = encode_format-Fits (format_of inst.op) inst _ w h in
      (fits, ok-injective (sym h ∙ encode_format-packed (format_of inst.op) inst fits))),
  (λ (fits, e). encode_format-packed (format_of inst.op) inst fits ∙ ap ok (sym e)),
)

-- `decode` in arithmetic.
abbrev pub decode_value : ℕ → Result DecodingError Instruction
decode_value w =
    if ltb 20 (w / 2 ^ 26 % 64)
    then err (unknown_opcode (w / 2 ^ 26 % 64))
    else ok (unpacked (format_of (opcode_cast (w / 2 ^ 26 % 64))) (opcode_cast (w / 2 ^ 26 % 64)) w)

pub decode-eq-value : (w : ℕ) → decode w ≡ decode_value w
unfolding decode opcode_value
decode-eq-value w = rw (bit_and-mask 6 (w / 2 ^ 26), decode_format-unpacked)

-- The parts of a packed word.
unpacked-packed :
    (f : Format) (inst : Instruction)
    → IsWord inst.imm
    → Fits f inst
    → (packed f inst / 2 ^ 26 % 64 ≡ opcode_value inst.op)
      × (unpacked f inst.op (packed f inst) ≡ format_fields f inst)
unpacked-packed r_type inst h (hd, hs, ht) =
    let op = inst.op in
    let w = packed r_type inst in
    let small = opcode_value-le op in
    let d : w / 2 ^ 22 % 16 ≡ inst.rd = omega arith in
    let s : w / 2 ^ 18 % 16 ≡ inst.rs = omega arith in
    let t : w / 2 ^ 14 % 16 ≡ inst.rt = omega arith in (omega arith, rw (d, s, t))
unpacked-packed i_type inst h (hd, hs, hi) =
    let w = packed i_type inst in
    let small = opcode_value-le inst.op in
    let d : w / 2 ^ 22 % 16 ≡ inst.rd = omega arith in
    let s : w / 2 ^ 18 % 16 ≡ inst.rs = omega arith in
    let i : w % 2 ^ 18 ≡ inst.imm % 2 ^ 18 = omega arith in
    (omega arith, rw (d, s, i, sign_extend_low inst.imm h hi))
unpacked-packed b_type inst h (hs, ht, hi) =
    let w = packed b_type inst in
    let small = opcode_value-le inst.op in
    let s : w / 2 ^ 22 % 16 ≡ inst.rs = omega arith in
    let t : w / 2 ^ 18 % 16 ≡ inst.rt = omega arith in
    let i : w % 2 ^ 18 ≡ inst.imm % 2 ^ 18 = omega arith in
    (omega arith, rw (s, t, i, sign_extend_low inst.imm h hi))
unpacked-packed j_type inst h fits =
    let w = packed j_type inst in
    let small = opcode_value-le inst.op in
    let t : w % 2 ^ 26 ≡ inst.target = omega arith in (omega arith, rw t)

-- Whatever `encode` accepts, `decode` gives back, with zero in the fields that the format lacks.
pub decode-encode :
    (inst : Instruction) (w : ℕ)
    → IsWord inst.imm
    → encode inst ≡ ok w
    → decode w ≡ ok (format_fields (format_of inst.op) inst)
decode-encode inst w h e =
    let f = format_of inst.op in
    let (fits, sum) = (encode-eq-ok_iff inst w).0 e in
    let (opv, fields) = unpacked-packed f inst h fits in
    let known : ltb 20 (opcode_value inst.op) ≡ false = ground (arith, opcode_value-le inst.op) in
    rw (sum, decode-eq-value, opv, known, opcode_cast-opcode_value) (ap ok fields)
