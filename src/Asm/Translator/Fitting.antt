-- ===== src/Asm/Translator/Fitting.antt =====
-- Which of the encoder's exceptions the instructions of the translator of src/asm/assembler.cpp
-- meet.
use mathlib.Core.Path.{subst}
use pipeline_lab.Prelude.{
  ℕ, ◌<◌, ◌≡◌, refl, sym, arith, ◌⊎◌, inl, inr, All-get_or, Bool-cases, Option-cases, false, not,
  ◌||◌, ok, err, >>=-eq-ok, ok-injective, guard,
}
use pipeline_lab.Prelude.Text.{codes}
use pipeline_lab.Prelude.Int.{ℤ}
use pipeline_lab.Words.{to_word, signed}
use pipeline_lab.Isa.Opcode.{
  Opcode, Format, r_type, i_type, b_type, j_type, format_of, is_load, is_store, is_ret,
}
use pipeline_lab.Isa.Instruction.{Instruction}
use pipeline_lab.Isa.Encoding.{
  encode, imm_out_of_range, EncodingError, target_out_of_range, encode_format,
}
use pipeline_lab.Isa.Encoding.RoundTrip.{Fits, encode-eq-ok_iff}
use pipeline_lab.Asm.Statement.{Operand, no_operand, Statement, same_text}
use pipeline_lab.Asm.Parser.Outcome.{RegistersExist}
use pipeline_lab.Asm.Translator.{
  Symbols, lookup_opcode, expect_argc, reg, imm, displacement, branch_offset, jump_target, make_nop,
  make_mov, make_li, make_r, make_i_alu, make_mem, make_branch, make_jump, translate_format,
  translate, operand_at,
}
use pipeline_lab.Asm.Translator.Laws.{add_format, addi_format}

in_range : (v : ℤ) → imm_out_of_range v ≡ false → imm_out_of_range (signed (to_word v)) ≡ false
in_range v h = ground arith

operand-lt : (s : Statement) (i : ℕ) → RegistersExist s.operands → (operand_at s i).reg < 16
operand-lt s i h =
    All-get_or (λ (op : Operand). op.reg < 16) s.operands i no_operand h (omega arith)

reg-lt :
    (line : ℕ) (s : Statement) (i : ℕ) {r : ℕ}
    → RegistersExist s.operands
    → reg line (operand_at s i) ≡ ok r
    → r < 16
unfolding reg
reg-lt line s i h e = ground (arith, operand-lt s i h)

imm-fits :
    (line : ℕ) (op : Operand) {v : ℕ} → imm line op ≡ ok v → imm_out_of_range (signed v) ≡ false
unfolding imm
imm-fits line op e = ground (arith, in_range op.imm)

displacement-fits :
    (line : ℕ) (op : Operand) {v : ℕ}
    → displacement line op ≡ ok v
    → imm_out_of_range (signed v) ≡ false
unfolding displacement
displacement-fits line op e = ground (arith, in_range op.imm)

-- The fields fit, or the format has a target only.
abbrev pub Fitting : Instruction → Type 0
Fitting inst = (format_of inst.op ≡ j_type) ⊎ Fits (format_of inst.op) inst

Fits-as : (f : Format) (inst : Instruction) → format_of inst.op ≡ f → Fits f inst → Fitting inst
Fits-as f inst e h = inr (subst (λ g. Fits g inst) (sym e) h)

module _ (line : ℕ) (op : Opcode) (s : Statement) (good : RegistersExist s.operands)
    {inst : Instruction} where
  make_r-Fitting : format_of op ≡ r_type → make_r line op s ≡ ok inst → Fitting inst
  unfolding make_r
  make_r-Fitting f h =
      let (_, _, h0) = >>=-eq-ok (expect_argc line s 3) _ h in
      let (d, dr, h1) = >>=-eq-ok (reg line (operand_at s 0)) _ h0 in
      let (a, ar, h2) = >>=-eq-ok (reg line (operand_at s 1)) _ h1 in
      let (b, br, done) = >>=-eq-ok (reg line (operand_at s 2)) _ h2 in
      subst Fitting (ok-injective done) (
        Fits-as r_type _ f
          (reg-lt line s 0 good dr, reg-lt line s 1 good ar, reg-lt line s 2 good br))

  make_i_alu-Fitting : format_of op ≡ i_type → make_i_alu line op s ≡ ok inst → Fitting inst
  unfolding make_i_alu
  make_i_alu-Fitting f h =
      let (_, _, h0) = >>=-eq-ok (expect_argc line s 3) _ h in
      let (d, dr, h1) = >>=-eq-ok (reg line (operand_at s 0)) _ h0 in
      let (a, ar, h2) = >>=-eq-ok (reg line (operand_at s 1)) _ h1 in
      let (v, valued, done) = >>=-eq-ok (imm line (operand_at s 2)) _ h2 in
      subst Fitting (ok-injective done) (
        Fits-as i_type _ f
          (reg-lt line s 0 good dr, reg-lt line s 1 good ar, imm-fits line (operand_at s 2) valued))

  make_mem-Fitting : format_of op ≡ i_type → make_mem line op s ≡ ok inst → Fitting inst
  unfolding make_mem
  make_mem-Fitting f h =
      let (_, _, h0) = >>=-eq-ok (expect_argc line s 2) _ h in
      let (d, dr, h1) = >>=-eq-ok (reg line (operand_at s 0)) _ h0 in
      let (v, valued, done) = >>=-eq-ok (displacement line (operand_at s 1)) _ h1 in
      subst Fitting (ok-injective done) (
        Fits-as i_type _ f (
          reg-lt line s 0 good dr,
          operand-lt s 1 good,
          displacement-fits line (operand_at s 1) valued,
        ))

  make_branch-Fitting :
      (symbols : Symbols) (address : ℕ)
      → format_of op ≡ b_type
      → make_branch symbols line op s address ≡ ok inst
      → Fitting inst
  unfolding make_branch
  make_branch-Fitting symbols address f h =
      let (_, _, h0) = >>=-eq-ok (expect_argc line s 3) _ h in
      let (a, ar, h1) = >>=-eq-ok (reg line (operand_at s 0)) _ h0 in
      let (b, br, h2) = >>=-eq-ok (reg line (operand_at s 1)) _ h1 in
      let (v, _, h3) = >>=-eq-ok (branch_offset symbols line address (operand_at s 2)) _ h2 in
      let (_, near, done) = >>=-eq-ok (guard (not (imm_out_of_range v)) _) _ h3 in
      let close : imm_out_of_range v ≡ false = ground arith in
      subst Fitting (ok-injective done)
        (Fits-as b_type _ f (reg-lt line s 0 good ar, reg-lt line s 1 good br, in_range v close))

  make_jump-Fitting :
      (symbols : Symbols)
      → format_of op ≡ j_type
      → make_jump symbols line op s ≡ ok inst
      → Fitting inst
  unfolding make_jump
  make_jump-Fitting symbols f h = elim (Bool-cases (is_ret op)) [
    | inl r ↦
        let (_, _, done) = >>=-eq-ok (expect_argc line s 0) _ (rw r at h) in
        subst Fitting (ok-injective done) (inl f)
    | inr r ↦
        let (_, _, h0) = >>=-eq-ok (expect_argc line s 1) _ (rw r at h) in
        let (t, _, done) = >>=-eq-ok (jump_target symbols line (operand_at s 0)) _ h0 in
        subst Fitting (ok-injective done) (inl f)
  ]

module _ (line : ℕ) (s : Statement) (good : RegistersExist s.operands) {inst : Instruction} where
  make_mov-Fitting : make_mov line s ≡ ok inst → Fitting inst
  unfolding make_mov
  make_mov-Fitting h =
      let (_, _, h0) = >>=-eq-ok (expect_argc line s 2) _ h in
      let (d, dr, h1) = >>=-eq-ok (reg line (operand_at s 0)) _ h0 in
      let (a, ar, done) = >>=-eq-ok (reg line (operand_at s 1)) _ h1 in
      subst Fitting (ok-injective done) (
        Fits-as r_type _ add_format (reg-lt line s 0 good dr, reg-lt line s 1 good ar, omega arith))

  make_li-Fitting : make_li line s ≡ ok inst → Fitting inst
  unfolding make_li
  make_li-Fitting h =
      let (_, _, h0) = >>=-eq-ok (expect_argc line s 2) _ h in
      let (d, dr, h1) = >>=-eq-ok (reg line (operand_at s 0)) _ h0 in
      let (v, valued, done) = >>=-eq-ok (imm line (operand_at s 1)) _ h1 in
      subst Fitting (ok-injective done) (
        Fits-as i_type _ addi_format
          (reg-lt line s 0 good dr, omega arith, imm-fits line (operand_at s 1) valued))

module _ (symbols : Symbols) (op : Opcode) (s : Statement) (good : RegistersExist s.operands)
    (address : ℕ) {inst : Instruction} where
  translate_format-Fitting :
      (f : Format)
      → format_of op ≡ f
      → translate_format f symbols op s address ≡ ok inst
      → Fitting inst
  unfolding translate_format
  translate_format-Fitting r_type f h = make_r-Fitting s.line op s good f h
  translate_format-Fitting i_type f h = elim (Bool-cases (is_load op || is_store op)) [
    | inl m ↦ make_mem-Fitting s.line op s good f (rw m at h)
    | inr m ↦ make_i_alu-Fitting s.line op s good f (rw m at h)
  ]
  translate_format-Fitting b_type f h = make_branch-Fitting s.line op s good symbols address f h
  translate_format-Fitting j_type f h = make_jump-Fitting s.line op s good symbols f h

pub translate-Fitting :
    (symbols : Symbols) (s : Statement) (address : ℕ) {inst : Instruction}
    → RegistersExist s.operands
    → translate symbols s address ≡ ok inst
    → Fitting inst
unfolding translate make_nop
translate-Fitting symbols s address good h = elim (Bool-cases (same_text s.name (codes "nop"))) [
  | inl n ↦
      subst Fitting (ok-injective (rw n at h))
        (Fits-as r_type _ add_format (omega arith, omega arith, omega arith))
  | inr n ↦ elim (Bool-cases (same_text s.name (codes "mov"))) [
    | inl m ↦ make_mov-Fitting s.line s good (rw (n, m) at h)
    | inr m ↦ elim (Bool-cases (same_text s.name (codes "li"))) [
      | inl l ↦ make_li-Fitting s.line s good (rw (n, m, l) at h)
      | inr l ↦ elim (Option-cases (lookup_opcode s.name)) [
        | inl none_found ↦ let refused = rw (n, m, l, none_found) at h in ground arith
        | inr (op, found) ↦
            translate_format-Fitting symbols op s good address (format_of op) refl
              (rw (n, m, l, found) at h)
      ]
    ]
  ]
]

jump_refused :
    (f : Format) (inst : Instruction) (word : ℕ) {e : EncodingError}
    → f ≡ j_type
    → encode_format f inst word ≡ err e
    → e ≡ target_out_of_range inst.target
unfolding encode_format
jump_refused r_type inst word is_j h = ground arith
jump_refused i_type inst word is_j h = ground arith
jump_refused b_type inst word is_j h = ground arith
jump_refused j_type inst word is_j h = ground arith

-- Where every register operand exists, as the parser sees to, the encoder refuses what the
-- translator produces only for a jump target of more than 26 bits.
pub translate-encodes :
    (symbols : Symbols) (s : Statement) (address : ℕ) (inst : Instruction) (e : EncodingError)
    → RegistersExist s.operands
    → translate symbols s address ≡ ok inst
    → encode inst ≡ err e
    → (format_of inst.op ≡ j_type) × (e ≡ target_out_of_range inst.target)
unfolding encode
translate-encodes symbols s address inst e good made refused =
    go (translate-Fitting symbols s address good made)
  where
    go : Fitting inst → (format_of inst.op ≡ j_type) × (e ≡ target_out_of_range inst.target)
    go (inl is_j) = (is_j, jump_refused (format_of inst.op) inst _ is_j refused)
    go (inr fits) = let coded = (encode-eq-ok_iff inst _).1 (fits, refl) in absurd (ground arith)
