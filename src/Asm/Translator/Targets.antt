-- ===== src/Asm/Translator/Targets.antt =====
-- Branch and jump targets in the translator of src/asm/assembler.cpp.
use pipeline_lab.Prelude.{
  ℕ, ◌^◌, ◌+◌, ◌≡◌, sym, ap, ◌∙◌, ok-injective, not, guard, arith, ok, >>=-eq-ok, some,
}
use pipeline_lab.Prelude.Int.{pos, ◌-ℤ◌, ◌+ℤ◌}
use pipeline_lab.Words.{u32, IsWord, to_word}
use pipeline_lab.Isa.Opcode.{Opcode}
use pipeline_lab.Isa.Instruction.{Instruction, blank}
use pipeline_lab.Isa.Encoding.{imm_out_of_range}
use mathlib.Core.Path.{subst}
use pipeline_lab.Sim.Interpreter
use pipeline_lab.Sim.Pipeline.Stages
use pipeline_lab.Words.Offset.{to_word-pos-signed}
use pipeline_lab.Asm.Statement.{find_key, label, immediate, Operand, Statement}
use pipeline_lab.Isa.Opcode.{j_type, format_of, is_ret, opcode_value}
use pipeline_lab.Isa.Encoding.{encode}
use pipeline_lab.Isa.Encoding.RoundTrip.{Fits, packed, encode-eq-ok_iff}
use pipeline_lab.Prelude.{◌>>=◌, ◌↔◌, ◌*◌, ◌%◌, ◌<◌, refl, false, length}
use pipeline_lab.Prelude.Int.{ℤ, negsuc}
use pipeline_lab.Asm.Translator.{
  make_jump, Symbols, expect_argc, reg, branch_offset, jump_target, make_branch, operand_at,
  resolve_label,
}
use pipeline_lab.Asm.Translator.Laws.{to_word-IsWord}

branch_offset-label :
    (symbols : Symbols) (line address target : ℕ) (tgt : Operand)
    → tgt.kind ≡ label
    → find_key symbols tgt.label ≡ some target
    → branch_offset symbols line address tgt ≡ ok (pos target -ℤ pos address)
unfolding branch_offset resolve_label
branch_offset-label symbols line address target tgt named found = ground arith

to_word_difference : (a t : ℕ) → IsWord a → IsWord t → u32 (a + to_word (pos t -ℤ pos a)) ≡ t
unfolding ◌-ℤ◌ ◌+ℤ◌
to_word_difference a t ha ht = ground arith

-- A branch to a label lands on it: in either simulator, the branch's address and the immediate that
-- the translator computes add up to the label's address.
pub make_branch-lands :
    (symbols : Symbols) (line : ℕ) (op : Opcode) (s : Statement) (address target : ℕ)
    {inst : Instruction}
    → IsWord address
    → IsWord target
    → (operand_at s 2).kind ≡ label
    → find_key symbols (operand_at s 2).label ≡ some target
    → make_branch symbols line op s address ≡ ok inst
    → (Interpreter.add_offset address inst.imm ≡ target)
      × (Stages.add_offset address inst.imm ≡ target)
unfolding make_branch branch_offset resolve_label Interpreter.add_offset Stages.add_offset
make_branch-lands symbols line op s address target ha ht named found h =
    let (_, _, h0) = >>=-eq-ok (expect_argc line s 3) _ h in
    let (a, _, h1) = >>=-eq-ok (reg line (operand_at s 0)) _ h0 in
    let (b, _, h2) = >>=-eq-ok (reg line (operand_at s 1)) _ h1 in
    let (v, offset, h3) = >>=-eq-ok (branch_offset symbols line address (operand_at s 2)) _ h2 in
    let (_, _, done) = >>=-eq-ok (guard (not (imm_out_of_range v)) _) _ h3 in
    let named_offset =
      branch_offset-label symbols line address target (operand_at s 2) named found in
    let exact = ok-injective (sym offset ∙ named_offset) in
    let pattern = ap (λ i. i.imm) (sym (ok-injective done)) in
    let sum = to_word-pos-signed address (to_word v) ha (to_word-IsWord v) in
    let lands : u32 (address + to_word v) ≡ target =
      subst (λ t. u32 (address + to_word t) ≡ target) (sym exact)
        (to_word_difference address target ha ht) in
    (rw pattern (sum ∙ lands), rw pattern (sum ∙ lands))

literal_target :
    (symbols : Symbols) (line : ℕ) (v : ℤ) (tgt : Operand) {target : ℕ}
    → tgt.kind ≡ immediate
    → tgt.imm ≡ v
    → jump_target symbols line tgt ≡ ok target
    → (n : ℕ) × (v ≡ pos n) × (target ≡ n % 2 ^ 32)
unfolding jump_target
literal_target symbols line (pos n) tgt literal same h = (n, refl, ground arith)
literal_target symbols line (negsuc n) tgt literal same h = absurd (ground arith)

literal_target-pos :
    (symbols : Symbols) (line n : ℕ) (tgt : Operand)
    → tgt.kind ≡ immediate
    → tgt.imm ≡ pos n
    → jump_target symbols line tgt ≡ ok (n % 2 ^ 32)
unfolding jump_target
literal_target-pos symbols line n tgt literal same = ground arith

-- The jump to an address, as an instruction.
abbrev jump_to : Opcode → ℕ → Instruction
jump_to op target = record (blank op) { target = target }

jump_to-encodes_iff :
    (op : Opcode) (target word : ℕ)
    → format_of op ≡ j_type
    → (encode (jump_to op target) ≡ ok word)
      ↔ ((target < 2 ^ 26) × (word ≡ opcode_value op * 2 ^ 26 + target))
jump_to-encodes_iff op target word jumps =
    subst
      (λ f.
        (encode (jump_to op target) ≡ ok word)
        ↔ (Fits f (jump_to op target) × (word ≡ packed f (jump_to op target))))
      jumps (encode-eq-ok_iff (jump_to op target) word)

make_jump-one :
    (symbols : Symbols) (line : ℕ) (op : Opcode) (s : Statement)
    → is_ret op ≡ false
    → length s.operands ≡ 1
    → make_jump symbols line op s
      ≡ (jump_target symbols line (operand_at s 0) >>= λ target. ok (jump_to op target))
unfolding make_jump expect_argc
make_jump-one symbols line op s goes one = rw (goes, one) refl

-- A jump to a literal: the translator and the encoder make the word of `target` of it exactly if the
-- literal is not negative, `target` is the literal modulo 2 ^ 32, and that has at most 26 bits. So a
-- literal of 2 ^ 32 or more is not refused by its size: what counts is the rest.
pub make_jump-encodes_iff :
    (symbols : Symbols) (line : ℕ) (op : Opcode) (s : Statement) (target : ℕ)
    → format_of op ≡ j_type
    → is_ret op ≡ false
    → length s.operands ≡ 1
    → (operand_at s 0).kind ≡ immediate
    → ((inst : Instruction) × (make_jump symbols line op s ≡ ok inst)
        × (encode inst ≡ ok (opcode_value op * 2 ^ 26 + target)))
      ↔ ((n : ℕ) × ((operand_at s 0).imm ≡ pos n) × (target ≡ n % 2 ^ 32) × (target < 2 ^ 26))
make_jump-encodes_iff symbols line op s target jumps goes one literal = (there, back)
  where
    there :
        (inst : Instruction) × (make_jump symbols line op s ≡ ok inst)
          × (encode inst ≡ ok (opcode_value op * 2 ^ 26 + target))
        → (n : ℕ) × ((operand_at s 0).imm ≡ pos n) × (target ≡ n % 2 ^ 32) × (target < 2 ^ 26)
    there (inst, h, coded) =
        let (t, found, same) =
          >>=-eq-ok (jump_target symbols line (operand_at s 0)) _
            (sym (make_jump-one symbols line op s goes one) ∙ h) in
        let (n, is_pos, exact) =
          literal_target symbols line _ (operand_at s 0) literal refl found in
        let (small, word) =
          (jump_to-encodes_iff op t _ jumps).0 (ap encode (ok-injective same) ∙ coded) in
        (n, is_pos, omega arith, omega arith)

    back :
        (n : ℕ) × ((operand_at s 0).imm ≡ pos n) × (target ≡ n % 2 ^ 32) × (target < 2 ^ 26)
        → (inst : Instruction) × (make_jump symbols line op s ≡ ok inst)
          × (encode inst ≡ ok (opcode_value op * 2 ^ 26 + target))
    back (n, is_pos, exact, small) = (
      jump_to op target,
      make_jump-one symbols line op s goes one
          ∙ ap (λ r. r >>= λ t. ok (jump_to op t))
              (literal_target-pos symbols line n (operand_at s 0) literal is_pos
                ∙ ap ok (sym exact)),
      (jump_to-encodes_iff op target _ jumps).1 (small, refl),
    )
