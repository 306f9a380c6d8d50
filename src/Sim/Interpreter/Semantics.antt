-- ===== src/Sim/Interpreter/Semantics.antt =====
-- The `switch` of src/sim/interpreter.cpp as a relation on interpreter states, one constructor for
-- each of its branches.
use pipeline_lab.Prelude.{
  ℕ, ◌+◌, ◌/◌, ◌<◌, get_or, ltb, guard, sym, ◌≡◌, refl, arith, Bool-cases, inl, inr, true, false,
  Result, ok, >>=-eq-ok,
}
use mathlib.Core.Path.{subst}
use pipeline_lab.Words.{u32}
use pipeline_lab.Isa.Opcode.{
  Format, r_type, i_type, b_type, j_type, format_of, is_load, is_store, is_ret, is_jal,
}
use pipeline_lab.Isa.Instruction.{Instruction, return_addr_reg}
use pipeline_lab.Isa.Encoding.{decode}
use pipeline_lab.Asm.Program.{Program, code_bytes}
use pipeline_lab.Sim.Fault.{Fault, or_fault}
use pipeline_lab.Sim.RegisterFile.{read, write}
use pipeline_lab.Sim.Memory.{DataMemory, load_word, store_word}
use pipeline_lab.Sim.Alu.{alu_result, branch_taken}
use pipeline_lab.Sim.Interpreter.{
  Interpreter, Progress, running, returned, add_offset, execute_format, step,
}

-- The instruction takes the state `s` to another one.
pub data Executes (inst : Instruction) (s : Interpreter) : Interpreter → Type 0 where
  alu_reg :
      format_of inst.op ≡ r_type
      → Executes inst s (record s {
        regs =
            write s.regs inst.rd (alu_result inst.op (read s.regs inst.rs) (read s.regs inst.rt));
        pc = u32 (s.pc + 4);
      })
  alu_imm :
      format_of inst.op ≡ i_type
      → is_load inst.op ≡ false
      → is_store inst.op ≡ false
      → Executes inst s (record s {
        regs = write s.regs inst.rd (alu_result inst.op (read s.regs inst.rs) inst.imm);
        pc = u32 (s.pc + 4);
      })
  load :
      (value : ℕ)
      → format_of inst.op ≡ i_type
      → is_load inst.op ≡ true
      → load_word s.mem (add_offset (read s.regs inst.rs) inst.imm) ≡ ok value
      → Executes inst s (record s { regs = write s.regs inst.rd value; pc = u32 (s.pc + 4) })
  store :
      (mem : DataMemory)
      → format_of inst.op ≡ i_type
      → is_load inst.op ≡ false
      → is_store inst.op ≡ true
      → store_word s.mem (add_offset (read s.regs inst.rs) inst.imm) (read s.regs inst.rd) ≡ ok mem
      → Executes inst s (record s { mem = mem; pc = u32 (s.pc + 4) })
  taken :
      format_of inst.op ≡ b_type
      → branch_taken inst.op (read s.regs inst.rs) (read s.regs inst.rt) ≡ true
      → Executes inst s (record s { pc = add_offset s.pc inst.imm })
  not_taken :
      format_of inst.op ≡ b_type
      → branch_taken inst.op (read s.regs inst.rs) (read s.regs inst.rt) ≡ false
      → Executes inst s (record s { pc = u32 (s.pc + 4) })
  jump :
      format_of inst.op ≡ j_type
      → is_ret inst.op ≡ false
      → is_jal inst.op ≡ false
      → Executes inst s (record s { pc = inst.target })
  link :
      format_of inst.op ≡ j_type
      → is_ret inst.op ≡ false
      → is_jal inst.op ≡ true
      → Executes inst s
          (record s { regs = write s.regs return_addr_reg (u32 (s.pc + 4)); pc = inst.target })

running-injective :
    {s t : Interpreter} → ◌≡◌ {A = Result Fault Progress} (ok (running s)) (ok (running t)) → s ≡ t
running-injective h = ground arith

returned-injective :
    {s t : Interpreter}
    → ◌≡◌ {A = Result Fault Progress} (ok (returned s)) (ok (returned t))
    → s ≡ t
returned-injective h = ground arith

not-returned-running :
    {s t : Interpreter} → ¬ (◌≡◌ {A = Result Fault Progress} (ok (returned s)) (ok (running t)))
not-returned-running h = ground arith

module _ (inst : Instruction) (s : Interpreter) {s' : Interpreter} where
  format_sound :
      (f : Format)
      → format_of inst.op ≡ f
      → execute_format f inst s ≡ ok (running s')
      → Executes inst s s'
  unfolding execute_format
  format_sound r_type f e = subst (Executes inst s) (running-injective e) (alu_reg f)
  format_sound i_type f e = elim (Bool-cases (is_load inst.op)) [
    | inl l ↦
        let (v, loaded, rest) = >>=-eq-ok (load_word s.mem _) _ (rw l at e) in
        subst (Executes inst s) (running-injective rest) (load v f l loaded)
    | inr l ↦ elim (Bool-cases (is_store inst.op)) [
      | inl t ↦
          let (m, stored, rest) = >>=-eq-ok (store_word s.mem _ _) _ (rw (l, t) at e) in
          subst (Executes inst s) (running-injective rest) (store m f l t stored)
      | inr t ↦ subst (Executes inst s) (running-injective (rw (l, t) at e)) (alu_imm f l t)
    ]
  ]
  format_sound b_type f e =
      elim (Bool-cases (branch_taken inst.op (read s.regs inst.rs) (read s.regs inst.rt))) [
        | inl t ↦ subst (Executes inst s) (running-injective (rw t at e)) (taken f t)
        | inr t ↦ subst (Executes inst s) (running-injective (rw t at e)) (not_taken f t)
      ]
  format_sound j_type f e = elim (Bool-cases (is_ret inst.op)) [
    | inl r ↦ absurd (not-returned-running (rw r at e))
    | inr r ↦ elim (Bool-cases (is_jal inst.op)) [
      | inl l ↦ subst (Executes inst s) (running-injective (rw (r, l) at e)) (link f r l)
      | inr l ↦ subst (Executes inst s) (running-injective (rw (r, l) at e)) (jump f r l)
    ]
  ]

  -- Only a RET returns, and it leaves the state alone.
  pub format_returned :
      (f : Format)
      → format_of inst.op ≡ f
      → execute_format f inst s ≡ ok (returned s')
      → (format_of inst.op ≡ j_type) × (is_ret inst.op ≡ true) × (s' ≡ s)
  unfolding execute_format
  format_returned r_type f e = ground arith
  format_returned i_type f e = elim (Bool-cases (is_load inst.op)) [
    | inl l ↦
        let (v, loaded, rest) = >>=-eq-ok (load_word s.mem _) _ (rw l at e) in
        absurd (not-returned-running (sym rest))
    | inr l ↦ elim (Bool-cases (is_store inst.op)) [
      | inl t ↦
          let (m, stored, rest) = >>=-eq-ok (store_word s.mem _ _) _ (rw (l, t) at e) in
          absurd (not-returned-running (sym rest))
      | inr t ↦ absurd (not-returned-running (sym (rw (l, t) at e)))
    ]
  ]
  format_returned b_type f e = ground arith
  format_returned j_type f e = elim (Bool-cases (is_ret inst.op)) [
    | inl r ↦ (f, r, sym (returned-injective (rw r at e)))
    | inr r ↦ absurd (not-returned-running (sym (rw r at e)))
  ]

-- An instruction does not touch the count of instructions.
pub Executes-retired :
    {inst : Instruction} {s s' : Interpreter} → Executes inst s s' → s'.retired ≡ s.retired
Executes-retired (alu_reg _) = refl
Executes-retired (alu_imm _ _ _) = refl
Executes-retired (load _ _ _ _) = refl
Executes-retired (store _ _ _ _ _) = refl
Executes-retired (taken _ _) = refl
Executes-retired (not_taken _ _) = refl
Executes-retired (jump _ _ _) = refl
Executes-retired (link _ _ _) = refl

-- A round of the loop that goes on has executed the decoded instruction at the PC.
pub step-eq-running :
    (program : Program) (s s' : Interpreter)
    → step program s ≡ ok (running s')
    → (inst : Instruction) × (s.pc < code_bytes program)
      × (decode (get_or program.words (s.pc / 4) 0) ≡ ok inst)
      × Executes inst (record s { retired = s.retired + 1 }) s'
unfolding step
step-eq-running program s s' e =
    let (_, guarded, rest) = >>=-eq-ok (guard (ltb s.pc (code_bytes program)) _) _ e in
    let (inst, decoded, executed) =
      >>=-eq-ok (or_fault (decode (get_or program.words (s.pc / 4) 0))) _ rest in
    (inst, ground arith, ground arith, format_sound inst _ (format_of inst.op) refl executed)

-- A round that returns has met a RET, and changed only the count.
pub step-eq-returned :
    (program : Program) (s s' : Interpreter)
    → step program s ≡ ok (returned s')
    → (inst : Instruction) × (s.pc < code_bytes program)
      × (decode (get_or program.words (s.pc / 4) 0) ≡ ok inst)
      × (format_of inst.op ≡ j_type)
      × (is_ret inst.op ≡ true)
      × (s' ≡ record s { retired = s.retired + 1 })
unfolding step
step-eq-returned program s s' e =
    let (_, guarded, rest) = >>=-eq-ok (guard (ltb s.pc (code_bytes program)) _) _ e in
    let (inst, decoded, executed) =
      >>=-eq-ok (or_fault (decode (get_or program.words (s.pc / 4) 0))) _ rest in
    let (f, r, same) = format_returned inst _ (format_of inst.op) refl executed in
    (inst, ground arith, ground arith, f, r, same)
