-- ===== src/Sim/Interpreter/Meaning.antt =====
-- The instruction set as docs/isa.md gives it, opcode by opcode and in integers, and its match with
-- the `switch` of src/sim/interpreter.cpp and the functions of src/sim/alu.cpp.
use pipeline_lab.Prelude.{
  ℕ, ◌+◌, ◌*◌, ◌/◌, ◌%◌, ◌^◌, ◌-◌, ◌<◌, bit_and, bit_or, bit_xor, sym, ap, ◌∙◌, ◌≡◌, ◌≢◌, ◌⊎◌, ◌↔◌,
  refl, arith, Bool, true, false, inl, inr, if◌then◌else◌, not, ◌==◌, Result, ok, true-not-false,
  ◌>>=◌, >>=-eq-ok,
}
use mathlib.Core.Path.{subst}
use pipeline_lab.Prelude.Int.{◌+ℤ◌, ◌-ℤ◌}
use pipeline_lab.Words.{u32, IsWord, signed, to_word, signed_lt}
use pipeline_lab.Words.Bits.{bit_and-mask}
use pipeline_lab.Words.Offset.{to_word-pos-signed, to_word-signed-signed}
use pipeline_lab.Isa.Opcode.{
  Opcode, add, sub, and, or, xor, sll, srl, slt, addi, andi, ori, xori, slti, lw, sw, beq, bne, blt,
  j, jal, ret, format_of, is_load, is_store, is_ret, is_jal,
}
use pipeline_lab.Isa.Instruction.{Instruction, return_addr_reg}
use pipeline_lab.Sim.Fault.{Fault}
use pipeline_lab.Sim.RegisterFile.{read, write}
use pipeline_lab.Sim.Memory.{DataMemory, load_word, store_word}
use pipeline_lab.Sim.Bounds.{AreWords, read-IsWord}
use pipeline_lab.Sim.Alu.{alu_result, branch_taken}
use pipeline_lab.Sim.Interpreter.Semantics.{format_returned}
use pipeline_lab.Sim.Interpreter.{
  Interpreter, Progress, running, returned, add_offset, execute_format,
}

-- The order of the signed numbers: that of their patterns, once half the range is added.
abbrev Less : ℕ → ℕ → Type 0
Less a b = u32 (a + 2 ^ 31) < u32 (b + 2 ^ 31)

-- The state behind the instruction.
abbrev next : Interpreter → Interpreter
next s = record s { pc = u32 (s.pc + 4) }

abbrev assigned : Interpreter → ℕ → ℕ → Interpreter
assigned s reg value = record (next s) { regs = write s.regs reg value }

abbrev jumped : Interpreter → ℕ → Interpreter
jumped s target = record s { pc = target }

-- `first` if the condition holds, and else `other`.
abbrev Chooses : Type 0 → Interpreter → Interpreter → Interpreter → Type 0
Chooses P first other s' = (P × (s' ≡ first)) ⊎ (¬ P × (s' ≡ other))

-- The sum of two signed numbers, as a pattern.
abbrev sum : ℕ → ℕ → ℕ
sum a b = to_word (signed a +ℤ signed b)

module _ (i : Instruction) (s : Interpreter) where
  abbrev rs : ℕ
  rs = read s.regs i.rs

  abbrev rt : ℕ
  rt = read s.regs i.rt

  -- The operation takes the state to `s'`.
  pub Means : Opcode → Interpreter → Type 0
  unfolding ◌+ℤ◌ ◌-ℤ◌
  Means add s' = s' ≡ assigned s i.rd (sum rs rt)
  Means sub s' = s' ≡ assigned s i.rd (to_word (signed rs -ℤ signed rt))
  Means and s' = s' ≡ assigned s i.rd (bit_and rs rt)
  Means or s' = s' ≡ assigned s i.rd (bit_or rs rt)
  Means xor s' = s' ≡ assigned s i.rd (bit_xor rs rt)
  Means sll s' = s' ≡ assigned s i.rd (u32 (rs * 2 ^ (rt % 32)))
  Means srl s' = s' ≡ assigned s i.rd (rs / 2 ^ (rt % 32))
  Means slt s' = Chooses (Less rs rt) (assigned s i.rd 1) (assigned s i.rd 0) s'
  Means addi s' = s' ≡ assigned s i.rd (sum rs i.imm)
  Means andi s' = s' ≡ assigned s i.rd (bit_and rs i.imm)
  Means ori s' = s' ≡ assigned s i.rd (bit_or rs i.imm)
  Means xori s' = s' ≡ assigned s i.rd (bit_xor rs i.imm)
  Means slti s' = Chooses (Less rs i.imm) (assigned s i.rd 1) (assigned s i.rd 0) s'
  Means lw s' =
      (value : ℕ) × (load_word s.mem (sum rs i.imm) ≡ ok value) × (s' ≡ assigned s i.rd value)
  Means sw s' =
      (mem : DataMemory) × (store_word s.mem (sum rs i.imm) (read s.regs i.rd) ≡ ok mem)
      × (s' ≡ record (next s) { mem = mem })
  Means beq s' = Chooses (rs ≡ rt) (jumped s (sum s.pc i.imm)) (next s) s'
  Means bne s' = Chooses (rs ≢ rt) (jumped s (sum s.pc i.imm)) (next s) s'
  Means blt s' = Chooses (Less rs rt) (jumped s (sum s.pc i.imm)) (next s) s'
  Means j s' = s' ≡ jumped s i.target
  Means jal s' =
      s' ≡ record s { regs = write s.regs return_addr_reg (u32 (s.pc + 4)); pc = i.target }
  Means ret s' = ⊥

abbrev Goes : Interpreter → Interpreter → Type 0
Goes x s' = ◌≡◌ {A = Result Fault Progress} (ok (running x)) (ok (running s'))

Goes-same : {x s' : Interpreter} → Goes x s' → s' ≡ x
Goes-same h = ground arith

Goes-iff : {x y s' : Interpreter} → x ≡ y → Goes x s' ↔ (s' ≡ y)
Goes-iff same = (λ h. Goes-same h ∙ same, λ h. ap (λ t. ok (running t)) (same ∙ sym h))

if-choice :
    {A B : Type 0} (f : A → B) (b : Bool) (x y : A)
    → f (if b then x else y) ≡ (if b then f x else f y)
if-choice f true x y = refl
if-choice f false x y = refl

Chooses-iff :
    (P : Type 0) (b : Bool) (first other : Interpreter) {x s' : Interpreter}
    → ((b ≡ true) ↔ P)
    → x ≡ (if b then first else other)
    → Goes x s' ↔ Chooses P first other s'
Chooses-iff P true first other test same = (
  λ h. inl (test.0 refl, (Goes-iff same).0 h),
  elim [ inl (_, e) ↦ (Goes-iff same).1 e | inr (fails, _) ↦ absurd (fails (test.0 refl)) ],
)
Chooses-iff P false first other test same = (
  λ h. inr (λ p. true-not-false (sym (test.1 p)), (Goes-iff same).0 h),
  elim [ inl (p, _) ↦ absurd (true-not-false (sym (test.1 p))) | inr (_, e) ↦ (Goes-iff same).1 e ],
)

Less-iff : (a b : ℕ) → IsWord a → IsWord b → (signed_lt a b ≡ true) ↔ Less a b
Less-iff a b ha hb = (λ h. ground arith, λ h. ground arith)

eq_iff : (a b : ℕ) → ((a == b) ≡ true) ↔ (a ≡ b)
eq_iff a b = (λ h. ground arith, λ h. ground arith)

ne_iff : (a b : ℕ) → (not (a == b) ≡ true) ↔ (a ≢ b)
ne_iff a b = (λ h. ground arith, λ h. ground arith)

difference : (a b : ℕ) → IsWord a → IsWord b → u32 (a + 2 ^ 32 - b) ≡ to_word (signed a -ℤ signed b)
unfolding ◌-ℤ◌
difference a b ha hb = ground arith

-- The word at a computed address, or the store to it, and the rest.
access_iff :
    {A : Type 0} (r : Result Fault A) (f : A → Interpreter) {s' : Interpreter}
    → ((r >>= λ value. ok (running (f value))) ≡ ok (running s'))
      ↔ ((value : A) × (r ≡ ok value) × (s' ≡ f value))
access_iff r f = (
  λ h. let (value, found, rest) = >>=-eq-ok r _ h in (value, found, Goes-same rest),
  λ (value, found, e). ap (λ r'. r' >>= λ v. ok (running (f v))) found ∙ (Goes-iff refl).1 e,
)

module _ (i : Instruction) (s s' : Interpreter) (words : AreWords s.regs s.mem)
    (pc_word : IsWord s.pc) (imm_word : IsWord i.imm) where
  rs-IsWord : IsWord (rs i s)
  rs-IsWord = read-IsWord s.regs i.rs words.regs_words

  rt-IsWord : IsWord (rt i s)
  rt-IsWord = read-IsWord s.regs i.rt words.regs_words

  sum_lem : (a b : ℕ) → IsWord a → IsWord b → u32 (a + b) ≡ sum a b
  sum_lem a b ha hb = sym (to_word-signed-signed a b ha hb)

  address_lem : (a : ℕ) → IsWord a → add_offset a i.imm ≡ sum a i.imm
  unfolding add_offset
  address_lem a ha = to_word-pos-signed a i.imm ha imm_word ∙ sum_lem a i.imm ha imm_word

  abbrev stored : DataMemory → Interpreter
  stored mem = record (next s) { mem = mem }

  abbrev Match : Opcode → Type 0
  Match op =
      (execute_format (format_of op) (record i { op = op }) s ≡ ok (running s')) ↔ Means i s op s'

  writes_iff : {v w : ℕ} → v ≡ w → Goes (assigned s i.rd v) s' ↔ (s' ≡ assigned s i.rd w)
  writes_iff same = Goes-iff (ap (assigned s i.rd) same)

  Chooses-Less_iff :
      (b : ℕ)
      → IsWord b
      → Goes (assigned s i.rd (if signed_lt (rs i s) b then 1 else 0)) s'
        ↔ Chooses (Less (rs i s) b) (assigned s i.rd 1) (assigned s i.rd 0) s'
  Chooses-Less_iff b hb =
      Chooses-iff (Less (rs i s) b) (signed_lt (rs i s) b) _ _ (Less-iff (rs i s) b rs-IsWord hb)
        (if-choice (assigned s i.rd) (signed_lt (rs i s) b) 1 0)

  branch_iff :
      (P : Type 0) (b : Bool)
      → ((b ≡ true) ↔ P)
      → Goes (jumped s (if b then add_offset s.pc i.imm else u32 (s.pc + 4))) s'
        ↔ Chooses P (jumped s (sum s.pc i.imm)) (next s) s'
  branch_iff P b test = Chooses-iff P b (jumped s (sum s.pc i.imm)) (next s) test (
      if-choice (jumped s) b (add_offset s.pc i.imm) (u32 (s.pc + 4))
      ∙ ap (λ a. if b then jumped s a else next s) (address_lem s.pc pc_word))

  opcode-Match : (op : Opcode) → Match op
  unfolding Means execute_format alu_result branch_taken format_of is_load is_store is_ret is_jal
  opcode-Match add = writes_iff (sum_lem (rs i s) (rt i s) rs-IsWord rt-IsWord)
  opcode-Match sub = writes_iff (difference (rs i s) (rt i s) rs-IsWord rt-IsWord)
  opcode-Match and = writes_iff refl
  opcode-Match or = writes_iff refl
  opcode-Match xor = writes_iff refl
  opcode-Match sll = writes_iff (ap (λ k. u32 (rs i s * 2 ^ k)) (bit_and-mask 5 (rt i s)))
  opcode-Match srl = writes_iff (ap (λ k. rs i s / 2 ^ k) (bit_and-mask 5 (rt i s)))
  opcode-Match slt = Chooses-Less_iff (rt i s) rt-IsWord
  opcode-Match addi = writes_iff (sum_lem (rs i s) i.imm rs-IsWord imm_word)
  opcode-Match andi = writes_iff refl
  opcode-Match ori = writes_iff refl
  opcode-Match xori = writes_iff refl
  opcode-Match slti = Chooses-Less_iff i.imm imm_word
  opcode-Match lw =
      subst
        (λ a.
          ((load_word s.mem a >>= λ value. ok (running (assigned s i.rd value))) ≡ ok (running s'))
          ↔ ((value : ℕ) × (load_word s.mem (sum (rs i s) i.imm) ≡ ok value)
              × (s' ≡ assigned s i.rd value)))
        (sym (address_lem (rs i s) rs-IsWord))
        (access_iff (load_word s.mem (sum (rs i s) i.imm)) (assigned s i.rd))
  opcode-Match sw =
      subst
        (λ a.
          ((store_word s.mem a (read s.regs i.rd) >>= λ mem. ok (running (stored mem)))
            ≡ ok (running s'))
          ↔ ((mem : DataMemory) × (store_word s.mem (sum (rs i s) i.imm) (read s.regs i.rd)
                ≡ ok mem)
              × (s' ≡ stored mem)))
        (sym (address_lem (rs i s) rs-IsWord))
        (access_iff (store_word s.mem (sum (rs i s) i.imm) (read s.regs i.rd)) stored)
  opcode-Match beq = branch_iff _ (rs i s == rt i s) (eq_iff (rs i s) (rt i s))
  opcode-Match bne = branch_iff _ (not (rs i s == rt i s)) (ne_iff (rs i s) (rt i s))
  opcode-Match blt =
      branch_iff _ (signed_lt (rs i s) (rt i s)) (Less-iff (rs i s) (rt i s) rs-IsWord rt-IsWord)
  opcode-Match j = Goes-iff refl
  opcode-Match jal = Goes-iff refl
  opcode-Match ret = (λ h. absurd (ground arith), λ h. absurd h)

is_ret-ret : (op : Opcode) → is_ret op ≡ true → op ≡ ret
unfolding is_ret
is_ret-ret ret h = refl
is_ret-ret _ h = cc

-- The interpreter carries out an instruction as docs/isa.md says: with registers, memory, PC and
-- immediate that are words, it goes on to the state `s'` exactly if the instruction's operation means
-- `s'` - sums and differences of signed numbers modulo 2 ^ 32, bit operations, shifts by the lower 5
-- bits, comparisons of signed numbers, loads and stores at the sum of base and displacement, branches
-- relative to their own address, jumps to their target, JAL with the next address in r15 -, and it
-- returns exactly at a RET, with the state as it is.
pub execute_format-Means_iff :
    (inst : Instruction) (s s' : Interpreter)
    → AreWords s.regs s.mem
    → IsWord s.pc
    → IsWord inst.imm
    → ((execute_format (format_of inst.op) inst s ≡ ok (running s')) ↔ Means inst s inst.op s')
      × ((execute_format (format_of inst.op) inst s ≡ ok (returned s'))
          ↔ ((inst.op ≡ ret) × (s' ≡ s)))
unfolding execute_format format_of is_ret
execute_format-Means_iff inst s s' words pc_word imm_word =
    (opcode-Match inst s s' words pc_word imm_word inst.op, (there, back))
  where
    there :
        execute_format (format_of inst.op) inst s ≡ ok (returned s') → (inst.op ≡ ret) × (s' ≡ s)
    there h =
        let (_, r, same) = format_returned inst s (format_of inst.op) refl h in
        (is_ret-ret inst.op r, same)

    back : (inst.op ≡ ret) × (s' ≡ s) → execute_format (format_of inst.op) inst s ≡ ok (returned s')
    back (r, same) =
        ap (λ op. execute_format (format_of op) (record inst { op = op }) s) r
        ∙ ap (λ t. ok (returned t)) (sym same)
