-- ===== src/Isa/Encoding/Decoding.antt =====
-- `decode` of src/isa/encoding.cpp from the side of the machine word: what it accepts, what it
-- gives, and what `encode` makes of that.
use pipeline_lab.Prelude.{
  ℕ, ◌*◌, ◌/◌, ◌%◌, ◌^◌, ◌<◌, ◌≤◌, ◌≡◌, refl, sym, ◌∙◌, ◌↔◌, ok-injective, arith, ok, err, ltb,
  false, true, Bool-cases, inl, inr,
}
use pipeline_lab.Words.{IsWord, signed}
use pipeline_lab.Isa.Opcode.{
  Opcode, Format, r_type, i_type, b_type, j_type, opcode_value, opcode_cast, format_of,
  opcode_value-opcode_cast,
}
use pipeline_lab.Isa.Instruction.{Instruction}
use pipeline_lab.Isa.Encoding.{encode, decode, imm_out_of_range, unknown_opcode, sign_extend}
use pipeline_lab.Isa.Encoding.Fields.{sign_extend_18}
use pipeline_lab.Isa.Encoding.RoundTrip.{
  Fits, packed, unpacked, format_fields, decode-eq-value, encode-eq-ok_iff,
}

-- The opcode field of a word.
abbrev pub opcode_field : ℕ → ℕ
opcode_field w = w / 2 ^ 26 % 64

-- The bits of a word that mean something: an R-type word does not use its 14 low bits.
abbrev pub used_bits : Format → ℕ → ℕ
used_bits r_type w = w / 2 ^ 14 * 2 ^ 14
used_bits _ w = w

decode_known :
    (w : ℕ)
    → opcode_field w ≤ 20
    → decode w
      ≡ ok (unpacked (format_of (opcode_cast (opcode_field w))) (opcode_cast (opcode_field w)) w)
decode_known w h =
    let known : ltb 20 (opcode_field w) ≡ false = ground arith in rw (decode-eq-value, known)

decode_unknown : (w : ℕ) → 20 < opcode_field w → decode w ≡ err (unknown_opcode (opcode_field w))
decode_unknown w h =
    let odd : ltb 20 (opcode_field w) ≡ true = ground arith in rw (decode-eq-value, odd)

-- `decode` throws exactly on the words whose opcode field is above the last opcode.
pub decode-eq-err_iff :
    (w : ℕ) → (decode w ≡ err (unknown_opcode (opcode_field w))) ↔ (20 < opcode_field w)
decode-eq-err_iff w = (
  (λ h. elim (Bool-cases (ltb 20 (opcode_field w))) [
    | inl odd ↦ ground arith
    | inr known ↦ cc (decode_known w (ground arith))
  ]),
  decode_unknown w,
)

-- A decoded instruction.
pub record IsDecoded (inst : Instruction) : Type 0 where
  pub rd_small : inst.rd < 16
  pub rs_small : inst.rs < 16
  pub rt_small : inst.rt < 16
  pub imm_word : IsWord inst.imm
  pub fits : Fits (format_of inst.op) inst
  pub rest_zero : format_fields (format_of inst.op) inst ≡ inst

sign_extend-IsWord :
    (v : ℕ)
    → v < 2 ^ 18
    → IsWord (sign_extend v 18)
      × (imm_out_of_range (signed (sign_extend v 18)) ≡ false)
      × (sign_extend v 18 % 2 ^ 18 ≡ v)
sign_extend-IsWord v h = ground (arith, sign_extend_18 v h)

unpacked-IsDecoded :
    (f : Format) (op : Opcode) (w : ℕ) → format_of op ≡ f → IsDecoded (unpacked f op w)
unpacked-IsDecoded r_type op w e = record {
  rd_small = omega arith;
  rs_small = omega arith;
  rt_small = omega arith;
  imm_word = omega arith;
  fits = rw e (omega arith);
  rest_zero = rw e;
}
unpacked-IsDecoded i_type op w e =
    let extended = sign_extend-IsWord (w % 2 ^ 18) (omega arith) in
    record {
      rd_small = omega arith;
      rs_small = omega arith;
      rt_small = omega arith;
      imm_word = extended.0;
      fits = rw e (omega arith, omega arith, extended.1);
      rest_zero = rw e;
    }
unpacked-IsDecoded b_type op w e =
    let extended = sign_extend-IsWord (w % 2 ^ 18) (omega arith) in
    record {
      rd_small = omega arith;
      rs_small = omega arith;
      rt_small = omega arith;
      imm_word = extended.0;
      fits = rw e (omega arith, omega arith, extended.1);
      rest_zero = rw e;
    }
unpacked-IsDecoded j_type op w e = record {
  rd_small = omega arith;
  rs_small = omega arith;
  rt_small = omega arith;
  imm_word = omega arith;
  fits = rw e (omega arith);
  rest_zero = rw e;
}

packed-unpacked :
    (f : Format) (op : Opcode) (w : ℕ)
    → IsWord w
    → opcode_value op ≡ opcode_field w
    → packed f (unpacked f op w) ≡ used_bits f w
packed-unpacked r_type op w h e = omega arith
packed-unpacked i_type op w h e = omega (arith, (sign_extend-IsWord (w % 2 ^ 18) (omega arith)).2)
packed-unpacked b_type op w h e = omega (arith, (sign_extend-IsWord (w % 2 ^ 18) (omega arith)).2)
packed-unpacked j_type op w h e = omega arith

-- What a successful `decode` has read.
decode-eq-ok :
    (w : ℕ) {inst : Instruction}
    → decode w ≡ ok inst
    → (opcode_field w ≤ 20)
      × (inst
          ≡ unpacked (format_of (opcode_cast (opcode_field w))) (opcode_cast (opcode_field w)) w)
decode-eq-ok w h = elim (Bool-cases (ltb 20 (opcode_field w))) [
  | inl odd ↦ cc (decode_unknown w (ground arith))
  | inr known ↦
      let small : opcode_field w ≤ 20 = ground arith in
      (small, ok-injective (sym h ∙ decode_known w small))
]

-- A decoded instruction names registers below 16, its immediate fits 18 bits and its target 26, and
-- the fields that its format lacks are zero.
pub decode-IsDecoded : (w : ℕ) {inst : Instruction} → decode w ≡ ok inst → IsDecoded inst
decode-IsDecoded w h =
    let op = opcode_cast (opcode_field w) in
    rw (decode-eq-ok w h).1 (unpacked-IsDecoded (format_of op) op w refl)

encode-unpacked :
    (f : Format) (op : Opcode) (w : ℕ)
    → format_of op ≡ f
    → IsWord w
    → opcode_value op ≡ opcode_field w
    → encode (unpacked f op w) ≡ ok (used_bits (format_of (unpacked f op w).op) w)
encode-unpacked r_type op w e h v =
    (encode-eq-ok_iff _ _).1
      ((unpacked-IsDecoded r_type op w e).fits, rw e (sym (packed-unpacked r_type op w h v)))
encode-unpacked i_type op w e h v =
    (encode-eq-ok_iff _ _).1
      ((unpacked-IsDecoded i_type op w e).fits, rw e (sym (packed-unpacked i_type op w h v)))
encode-unpacked b_type op w e h v =
    (encode-eq-ok_iff _ _).1
      ((unpacked-IsDecoded b_type op w e).fits, rw e (sym (packed-unpacked b_type op w h v)))
encode-unpacked j_type op w e h v =
    (encode-eq-ok_iff _ _).1
      ((unpacked-IsDecoded j_type op w e).fits, rw e (sym (packed-unpacked j_type op w h v)))

-- Encoding what a word decodes to gives the word back, but for the bits that an R-type word does
-- not use.
pub encode-decode :
    (w : ℕ) (inst : Instruction)
    → IsWord w
    → decode w ≡ ok inst
    → encode inst ≡ ok (used_bits (format_of inst.op) w)
encode-decode w inst h e =
    let op = opcode_cast (opcode_field w) in
    let (small, read) = decode-eq-ok w e in
    rw read
      (encode-unpacked (format_of op) op w refl h (opcode_value-opcode_cast (opcode_field w) small))
