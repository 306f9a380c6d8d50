-- ===== src/Isa/Tests.antt =====
-- The encoder and the decoder of src/isa/encoding.cpp on single words.
use pipeline_lab.Prelude.{ℕ, ◌≡◌, ◌<◌, refl, ◌↔◌, arith, ok, err}
use pipeline_lab.Isa.Opcode.{addi, format_of, opcode_value, opcode_cast}
use pipeline_lab.Isa.Instruction.{Instruction, blank}
use pipeline_lab.Isa.Encoding.{encode, decode, unknown_opcode, sign_extend, reg_field}
use pipeline_lab.Isa.Encoding.RoundTrip.{Fits, packed, encode-eq-ok_iff, decode-encode}
use pipeline_lab.Isa.Encoding.Decoding.{decode-eq-err_iff, encode-decode}

-- addi r5, r1, -8
abbrev minus_eight : Instruction
minus_eight = record (blank addi) { rd = 5; rs = 1; imm = 0xFFFFFFF8 }

abbrev minus_eight_word : ℕ
minus_eight_word = 558366712

minus_eight_encoded : encode minus_eight ≡ ok minus_eight_word
unfolding encode format_of opcode_value reg_field
minus_eight_encoded = refl

minus_eight_decoded : decode minus_eight_word ≡ ok minus_eight
unfolding decode format_of opcode_value opcode_cast sign_extend
minus_eight_decoded = refl

decode-encode_example : decode minus_eight_word ≡ ok minus_eight
unfolding format_of
decode-encode_example = decode-encode minus_eight minus_eight_word (omega arith) minus_eight_encoded

encode-decode_example : encode minus_eight ≡ ok minus_eight_word
unfolding format_of
encode-decode_example = encode-decode minus_eight_word minus_eight (omega arith) minus_eight_decoded

encode-eq-ok_iff_example : (encode minus_eight ≡ ok minus_eight_word) ↔ (
    Fits (format_of minus_eight.op) minus_eight
    × (minus_eight_word ≡ packed (format_of minus_eight.op) minus_eight))
encode-eq-ok_iff_example = encode-eq-ok_iff minus_eight minus_eight_word

-- The word with opcode field 63 and every other bit 0.
decode-eq-err_iff_example : (decode 4227858432 ≡ err (unknown_opcode 63)) ↔ (20 < 63)
decode-eq-err_iff_example = decode-eq-err_iff 4227858432
