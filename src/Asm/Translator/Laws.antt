-- ===== src/Asm/Translator/Laws.antt =====
-- What the translator of src/asm/assembler.cpp produces: instructions that survive encoding and
-- decoding, and branches that land on their labels.
use pipeline_lab.Prelude.{
  ℕ, true, ◌≡◌, refl, Option-cases, ok-injective, not, ◌||◌, guard, arith, Bool-cases, inl, inr, ok,
  >>=-eq-ok,
}
use pipeline_lab.Prelude.Text.{codes}
use pipeline_lab.Prelude.Int.{ℤ}
use pipeline_lab.Words.{IsWord, to_word}
use pipeline_lab.Isa.Opcode.{
  Opcode, Format, add, addi, r_type, i_type, b_type, j_type, format_of, is_load, is_store, is_ret,
}
use pipeline_lab.Isa.Instruction.{Instruction, blank}
use pipeline_lab.Isa.Encoding.RoundTrip.{format_fields}
use pipeline_lab.Isa.Encoding.{imm_out_of_range}
use mathlib.Core.Path.{subst}
use pipeline_lab.Asm.Statement.{Operand, Statement, same_text}
use pipeline_lab.Asm.Translator.{
  Symbols, lookup_opcode, expect_argc, reg, imm, displacement, branch_offset, jump_target, make_nop,
  make_mov, make_li, make_r, make_i_alu, make_mem, make_branch, make_jump, translate_format,
  translate, operand_at,
}

-- The fields that the format lacks are zero, the immediate is a bit pattern, and a RET has no
-- target.
pub record IsCanonical (inst : Instruction) : Type 0 where
  pub imm_word : IsWord inst.imm
  pub rest_zero : format_fields (format_of inst.op) inst ≡ inst
  pub plain_ret : is_ret inst.op ≡ true → inst.target ≡ 0

pub to_word-IsWord : (a : ℤ) → IsWord (to_word a)
to_word-IsWord a = ground arith

pub add_format : format_of add ≡ r_type
unfolding format_of
add_format = refl

pub addi_format : format_of addi ≡ i_type
unfolding format_of
addi_format = refl

r-IsCanonical :
    (op : Opcode) (d s t : ℕ)
    → format_of op ≡ r_type
    → IsCanonical (record (blank op) { rd = d; rs = s; rt = t })
r-IsCanonical op d s t f = record {
  imm_word = omega arith;
  rest_zero = rw f;
  plain_ret = λ _. refl;
}

i-IsCanonical :
    (op : Opcode) (d s v : ℕ)
    → format_of op ≡ i_type
    → IsWord v
    → IsCanonical (record (blank op) { rd = d; rs = s; imm = v })
i-IsCanonical op d s v f h = record { imm_word = h; rest_zero = rw f; plain_ret = λ _. refl }

b-IsCanonical :
    (op : Opcode) (s t v : ℕ)
    → format_of op ≡ b_type
    → IsWord v
    → IsCanonical (record (blank op) { rs = s; rt = t; imm = v })
b-IsCanonical op s t v f h = record { imm_word = h; rest_zero = rw f; plain_ret = λ _. refl }

j-IsCanonical :
    (op : Opcode) (t : ℕ)
    → format_of op ≡ j_type
    → (is_ret op ≡ true → t ≡ 0)
    → IsCanonical (record (blank op) { target = t })
j-IsCanonical op t f plain = record { imm_word = omega arith; rest_zero = rw f; plain_ret = plain }

imm-IsWord : (line : ℕ) (op : Operand) {v : ℕ} → imm line op ≡ ok v → IsWord v
unfolding imm
imm-IsWord line op h = ground arith

displacement-IsWord : (line : ℕ) (op : Operand) {v : ℕ} → displacement line op ≡ ok v → IsWord v
unfolding displacement
displacement-IsWord line op h = ground arith

module _ (line : ℕ) (op : Opcode) (s : Statement) {inst : Instruction} where
  make_r-IsCanonical : format_of op ≡ r_type → make_r line op s ≡ ok inst → IsCanonical inst
  unfolding make_r
  make_r-IsCanonical f h =
      let (_, _, h0) = >>=-eq-ok (expect_argc line s 3) _ h in
      let (d, _, h1) = >>=-eq-ok (reg line (operand_at s 0)) _ h0 in
      let (a, _, h2) = >>=-eq-ok (reg line (operand_at s 1)) _ h1 in
      let (b, _, done) = >>=-eq-ok (reg line (operand_at s 2)) _ h2 in
      subst IsCanonical (ok-injective done) (r-IsCanonical op d a b f)

  make_i_alu-IsCanonical : format_of op ≡ i_type → make_i_alu line op s ≡ ok inst → IsCanonical inst
  unfolding make_i_alu
  make_i_alu-IsCanonical f h =
      let (_, _, h0) = >>=-eq-ok (expect_argc line s 3) _ h in
      let (d, _, h1) = >>=-eq-ok (reg line (operand_at s 0)) _ h0 in
      let (a, _, h2) = >>=-eq-ok (reg line (operand_at s 1)) _ h1 in
      let (v, valued, done) = >>=-eq-ok (imm line (operand_at s 2)) _ h2 in
      subst IsCanonical (ok-injective done)
        (i-IsCanonical op d a v f (imm-IsWord line (operand_at s 2) valued))

  make_mem-IsCanonical : format_of op ≡ i_type → make_mem line op s ≡ ok inst → IsCanonical inst
  unfolding make_mem
  make_mem-IsCanonical f h =
      let (_, _, h0) = >>=-eq-ok (expect_argc line s 2) _ h in
      let (d, _, h1) = >>=-eq-ok (reg line (operand_at s 0)) _ h0 in
      let (v, valued, done) = >>=-eq-ok (displacement line (operand_at s 1)) _ h1 in
      subst IsCanonical (ok-injective done) (
        i-IsCanonical op d (operand_at s 1).reg v f
          (displacement-IsWord line (operand_at s 1) valued))

  make_branch-IsCanonical :
      (symbols : Symbols) (address : ℕ)
      → format_of op ≡ b_type
      → make_branch symbols line op s address ≡ ok inst
      → IsCanonical inst
  unfolding make_branch
  make_branch-IsCanonical symbols address f h =
      let (_, _, h0) = >>=-eq-ok (expect_argc line s 3) _ h in
      let (a, _, h1) = >>=-eq-ok (reg line (operand_at s 0)) _ h0 in
      let (b, _, h2) = >>=-eq-ok (reg line (operand_at s 1)) _ h1 in
      let (v, _, h3) = >>=-eq-ok (branch_offset symbols line address (operand_at s 2)) _ h2 in
      let (_, _, done) = >>=-eq-ok (guard (not (imm_out_of_range v)) _) _ h3 in
      subst IsCanonical (ok-injective done) (b-IsCanonical op a b (to_word v) f (to_word-IsWord v))

  make_jump-IsCanonical :
      (symbols : Symbols)
      → format_of op ≡ j_type
      → make_jump symbols line op s ≡ ok inst
      → IsCanonical inst
  unfolding make_jump
  make_jump-IsCanonical symbols f h = elim (Bool-cases (is_ret op)) [
    | inl r ↦
        let (_, _, done) = >>=-eq-ok (expect_argc line s 0) _ (rw r at h) in
        subst IsCanonical (ok-injective done) (j-IsCanonical op 0 f (λ _. refl))
    | inr r ↦
        let (_, _, h0) = >>=-eq-ok (expect_argc line s 1) _ (rw r at h) in
        let (t, _, done) = >>=-eq-ok (jump_target symbols line (operand_at s 0)) _ h0 in
        subst IsCanonical (ok-injective done) (j-IsCanonical op t f (λ returns. cc))
  ]

module _ (line : ℕ) (s : Statement) {inst : Instruction} where
  make_mov-IsCanonical : make_mov line s ≡ ok inst → IsCanonical inst
  unfolding make_mov
  make_mov-IsCanonical h =
      let (_, _, h0) = >>=-eq-ok (expect_argc line s 2) _ h in
      let (d, _, h1) = >>=-eq-ok (reg line (operand_at s 0)) _ h0 in
      let (a, _, done) = >>=-eq-ok (reg line (operand_at s 1)) _ h1 in
      subst IsCanonical (ok-injective done) (r-IsCanonical add d a 0 add_format)

  make_li-IsCanonical : make_li line s ≡ ok inst → IsCanonical inst
  unfolding make_li
  make_li-IsCanonical h =
      let (_, _, h0) = >>=-eq-ok (expect_argc line s 2) _ h in
      let (d, _, h1) = >>=-eq-ok (reg line (operand_at s 0)) _ h0 in
      let (v, valued, done) = >>=-eq-ok (imm line (operand_at s 1)) _ h1 in
      subst IsCanonical (ok-injective done)
        (i-IsCanonical addi d 0 v addi_format (imm-IsWord line (operand_at s 1) valued))

module _ (symbols : Symbols) (op : Opcode) (s : Statement) (address : ℕ) {inst : Instruction} where
  translate_format-IsCanonical :
      (f : Format)
      → format_of op ≡ f
      → translate_format f symbols op s address ≡ ok inst
      → IsCanonical inst
  unfolding translate_format
  translate_format-IsCanonical r_type f h = make_r-IsCanonical s.line op s f h
  translate_format-IsCanonical i_type f h = elim (Bool-cases (is_load op || is_store op)) [
    | inl m ↦ make_mem-IsCanonical s.line op s f (rw m at h)
    | inr m ↦ make_i_alu-IsCanonical s.line op s f (rw m at h)
  ]
  translate_format-IsCanonical b_type f h = make_branch-IsCanonical s.line op s symbols address f h
  translate_format-IsCanonical j_type f h = make_jump-IsCanonical s.line op s symbols f h

-- Whatever the translator produces has a 32-bit immediate and zero in every field that its format
-- lacks, and a RET has no target.
pub translate-IsCanonical :
    (symbols : Symbols) (s : Statement) (address : ℕ) {inst : Instruction}
    → translate symbols s address ≡ ok inst
    → IsCanonical inst
unfolding translate make_nop
translate-IsCanonical symbols s address h = elim (Bool-cases (same_text s.name (codes "nop"))) [
  | inl n ↦ subst IsCanonical (ok-injective (rw n at h)) (r-IsCanonical add 0 0 0 add_format)
  | inr n ↦ elim (Bool-cases (same_text s.name (codes "mov"))) [
    | inl m ↦ make_mov-IsCanonical s.line s (rw (n, m) at h)
    | inr m ↦ elim (Bool-cases (same_text s.name (codes "li"))) [
      | inl l ↦ make_li-IsCanonical s.line s (rw (n, m, l) at h)
      | inr l ↦ elim (Option-cases (lookup_opcode s.name)) [
        | inl none_found ↦ let refused = rw (n, m, l, none_found) at h in ground arith
        | inr (op, found) ↦
            translate_format-IsCanonical symbols op s address (format_of op) refl
              (rw (n, m, l, found) at h)
      ]
    ]
  ]
]
