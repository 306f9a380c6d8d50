-- ===== src/Sim/Pipeline/Separation.antt =====
-- Programs for which the hazard unit of src/sim/pipeline.cpp never has to stall in the cycle of a
-- control transfer: the instruction behind a branch, a jump or a RET reads no register that the
-- transfer or the instruction in front of it writes. Without forwarding this is what keeps a
-- redirect from being lost.
use pipeline_lab.Prelude.{
  ℕ, ◌+◌, ◌-◌, ◌^◌, ◌<◌, ◌≤◌, ◌≡◌, refl, sym, ap, ◌∙◌, arith, Bool, Bool-cases, inl, inr, ◌⊎◌, true,
  false, ok, err, ◌&&◌, ◌||◌, not, ltb, ◌==◌, if◌then◌else◌, passes_upto, passes_upto_all,
}
use pipeline_lab.Words.{u32}
use pipeline_lab.Isa.Instruction.{Instruction}
use pipeline_lab.Isa.Encoding.{decode}
use pipeline_lab.Asm.Program.{Program, code_bytes, word_at}
use pipeline_lab.Sim.Pipeline.State.{Control, no_control, make_control, Latch, Pipeline, reads_reg}
use pipeline_lab.Sim.Pipeline.Stages.{execute_latch, detect_stall, conflicts}

-- A branch, a jump or a RET.
abbrev pub transfers : Control → Bool
transfers c = c.is_ret || c.is_jump || c.is_branch

-- The second instruction reads what the first writes.
abbrev pub needs : Control → Control → Bool
needs writer reader =
    writer.reg_write
    && not (writer.dest_reg == 0)
    && (reader.a_reg == writer.dest_reg || reader.b_reg == writer.dest_reg)

-- The control signals of the instruction at `pc`, if there is one.
unfoldable pub control_at : Program → ℕ → Control
control_at program pc =
    if ltb pc (code_bytes program)
    then (elim (decode (word_at program pc)) [ ok inst ↦ make_control inst | err _ ↦ no_control ])
    else no_control

abbrev pub separated_at : Program → ℕ → Bool
separated_at program pc =
    not (transfers (control_at program pc))
    || (not (needs (control_at program pc) (control_at program (u32 (pc + 4))))
        && not (
            needs (control_at program (u32 (pc + (2 ^ 32 - 4))))
              (control_at program (u32 (pc + 4)))))

abbrev pub Separated : Program → Type 0
Separated program = (pc : ℕ) → pc < code_bytes program → separated_at program pc ≡ true

-- It is enough to look at the addresses below a bound that the code does not pass.
pub passes_upto-Separated :
    (program : Program) (bound : ℕ)
    → code_bytes program ≤ bound
    → passes_upto (separated_at program) bound ≡ true
    → Separated program
passes_upto-Separated program bound small passed pc in_code =
    passes_upto_all (separated_at program) bound passed (omega arith)

pub control_at-decode :
    (program : Program) (pc : ℕ) (inst : Instruction)
    → pc < code_bytes program
    → decode (word_at program pc) ≡ ok inst
    → control_at program pc ≡ make_control inst
unfolding control_at
control_at-decode program pc inst in_code decodes =
    let inside : ltb pc (code_bytes program) ≡ true = ground arith in rw (inside, decodes)

-- What EX flushes for is a transfer.
pub flush_transfers :
    (l : Latch) (a b : ℕ) → (execute_latch l a b).flush_younger ≡ true → transfers l.ctrl ≡ true
unfolding execute_latch
flush_transfers l a b flush = ground arith

conflicts-needs :
    (reader : Control) (l : Latch)
    → conflicts reader l ≡ true
    → (l.bubble ≡ false) × (needs l.ctrl reader ≡ true)
unfolding conflicts reads_reg
conflicts-needs reader l h = (ground arith, ground arith)

-- A stall without forwarding is for an instruction in EX or MEM.
pub stall_needs :
    (p : Pipeline)
    → p.forwarding ≡ false
    → detect_stall p ≡ true
    → (needs p.idex.ctrl (make_control p.ifid.inst) ≡ true)
      ⊎ ((p.exmem.bubble ≡ false) × (needs p.exmem.ctrl (make_control p.ifid.inst) ≡ true))
unfolding detect_stall
stall_needs p off stall =
    let reader = make_control p.ifid.inst in
    elim (Bool-cases (conflicts reader p.idex)) [
      | inl first ↦ inl (conflicts-needs reader p.idex first).1
      | inr no_first ↦ inr (conflicts-needs reader p.exmem (ground arith))
    ]

-- The latch in EX/MEM is a bubble, or holds the instruction in front of `pc`.
pub data Older (program : Program) (l : Latch) (pc : ℕ) : Type 0 where
  no_older : l.bubble ≡ true → Older program l pc
  older :
      (before : ℕ) (inst : Instruction)
      → before < code_bytes program
      → decode (word_at program before) ≡ ok inst
      → l.ctrl ≡ make_control inst
      → u32 (before + 4) ≡ pc
      → Older program l pc

clash : ¬ (false ≡ true)
clash h = cc

clash_first : (t a b : Bool) → t ≡ true → a ≡ true → (not t || (not a && not b)) ≡ true → ⊥
clash_first t a b ht ha h = ground arith

clash_second : (t a b : Bool) → t ≡ true → b ≡ true → (not t || (not a && not b)) ≡ true → ⊥
clash_second t a b ht hb h = ground arith

-- The address in front of the one behind an address of the code.
back_to :
    (program : Program) (before : ℕ) {pc : ℕ}
    → before < code_bytes program
    → u32 (before + 4) ≡ pc
    → u32 (pc + (2 ^ 32 - 4)) ≡ before
unfolding code_bytes
back_to program before inside at = omega arith

-- In a separated program a transfer in EX meets no stall.
pub transfer_flows :
    (program : Program) (p : Pipeline) (pc : ℕ) (here next : Instruction)
    → Separated program
    → p.forwarding ≡ false
    → pc < code_bytes program
    → decode (word_at program pc) ≡ ok here
    → p.idex.ctrl ≡ make_control here
    → transfers p.idex.ctrl ≡ true
    → Older program p.exmem pc
    → u32 (pc + 4) < code_bytes program
    → decode (word_at program (u32 (pc + 4))) ≡ ok next
    → p.ifid.inst ≡ next
    → detect_stall p ≡ false
transfer_flows program p pc here next separated off in_code decodes control moves old next_in_code
      next_decodes same =
    elim (Bool-cases (detect_stall p)) [
      | inl stall ↦ absurd (go (stall_needs p off stall) old)
      | inr flow ↦ flow
    ]
  where
    reader : control_at program (u32 (pc + 4)) ≡ make_control p.ifid.inst
    reader =
        control_at-decode program (u32 (pc + 4)) next next_in_code next_decodes
        ∙ ap make_control (sym same)

    transfer : control_at program pc ≡ p.idex.ctrl
    transfer = control_at-decode program pc here in_code decodes ∙ sym control

    -- What separation says, of the instruction `w` in front.
    kept :
        (w : Control)
        → control_at program (u32 (pc + (2 ^ 32 - 4))) ≡ w
        → (not (transfers p.idex.ctrl)
            || (not (needs p.idex.ctrl (make_control p.ifid.inst))
                && not (needs w (make_control p.ifid.inst))))
          ≡ true
    kept w front =
        sym (λ i.
          not (transfers (transfer i))
          || (not (needs (transfer i) (reader i)) && not (needs (front i) (reader i))))
        ∙ separated pc in_code

    go :
        (needs p.idex.ctrl (make_control p.ifid.inst) ≡ true)
          ⊎ ((p.exmem.bubble ≡ false) × (needs p.exmem.ctrl (make_control p.ifid.inst) ≡ true))
        → Older program p.exmem pc
        → ⊥
    go (inl first) _ = clash_first _ _ _ moves first (kept _ refl)
    go (inr (live, second)) (no_older bubble) = clash (sym live ∙ bubble)
    go (inr (live, second)) (older before inst before_in_code before_decodes before_control at) =
        let back : u32 (pc + (2 ^ 32 - 4)) ≡ before = back_to program before before_in_code at in
        let front =
          ap (control_at program) back
          ∙ control_at-decode program before inst before_in_code before_decodes
          ∙ sym before_control in
        clash_second _ _ _ moves second (kept p.exmem.ctrl front)
