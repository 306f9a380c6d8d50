-- ===== src/Sim/Pipeline/Operands.antt =====
-- The operands of EX in src/sim/pipeline.cpp, with forwarding and without: when the two older
-- instructions leave no hazard, EX works on what the registers will hold.
use pipeline_lab.Prelude.{
  ℕ, ◌<◌, ◌≡◌, sym, ◌∙◌, ◌⊎◌, arith, Bool, Bool-cases, inl, inr, true, false, ok, ◌&&◌, not, ◌==◌,
}
use pipeline_lab.Sim.RegisterFile.{RegisterFile, IsRegisterFile}
use pipeline_lab.Sim.Memory.{DataMemory}
use pipeline_lab.Sim.Pipeline.State.{Latch, Pipeline, reads_reg, make_control}
use pipeline_lab.Sim.Pipeline.Stages.{
  access, written, forwarded, operand, port, detect_stall, conflicts,
}
use pipeline_lab.Sim.Pipeline.Forwarding.{
  Accessed, idle, busy, access-Accessed, loads_into, operand-forwarded, read-written,
  written-IsRegisterFile,
}

-- The latch writes the register `reg`.
abbrev pub writes_to : Latch → ℕ → Bool
writes_to l reg =
    not l.bubble && l.ctrl.reg_write && not (l.ctrl.dest_reg == 0) && l.ctrl.dest_reg == reg

-- EX can have the operand `reg`: with forwarding, unless a load in EX/MEM is into it; without, only
-- if no instruction on its way writes it.
abbrev pub Ready : Pipeline → ℕ → Type 0
Ready p reg =
    (p.forwarding ≡ true → loads_into p.exmem reg ≡ false)
    × (p.forwarding ≡ false → (writes_to p.exmem reg ≡ false) × (writes_to p.memwb reg ≡ false))

-- A latch that does not write a register leaves it alone.
port-written :
    (l : Latch) (r : RegisterFile) (reg : ℕ)
    → IsRegisterFile r
    → l.ctrl.dest_reg < 16
    → writes_to l reg ≡ false
    → port (written l r) reg ≡ port r reg
unfolding port
port-written l r reg h d free = ground (arith, read-written l r reg h d)

pub writes_to-Accessed :
    {l n : Latch} (reg : ℕ) → Accessed l n → writes_to l reg ≡ false → writes_to n reg ≡ false
writes_to-Accessed reg (idle _ same) free = rw same
writes_to-Accessed reg (busy value _ same _) free = rw same free

dest-Accessed : {l n : Latch} → Accessed l n → l.ctrl.dest_reg < 16 → n.ctrl.dest_reg < 16
dest-Accessed (idle _ same) d = rw same (omega arith)
dest-Accessed (busy value _ same _) d = rw same d

operand_stalling :
    (p : Pipeline) (reg : ℕ)
    → p.forwarding ≡ false
    → operand (forwarded p reg) (port p.regs reg) ≡ port p.regs reg
unfolding forwarded
operand_stalling p reg off = ground arith

pub operand-Ready :
    (p : Pipeline) (reg : ℕ) (mem : DataMemory) (n : Latch)
    → IsRegisterFile p.regs
    → p.memwb.ctrl.dest_reg < 16
    → p.exmem.ctrl.dest_reg < 16
    → access p.exmem p.mem ≡ ok (mem, n)
    → Ready p reg
    → operand (forwarded p reg) (port p.regs reg) ≡ port (written n (written p.memwb p.regs)) reg
operand-Ready p reg mem n h d d' e (loaded, pending) = elim (Bool-cases p.forwarding) [
  | inl on ↦ operand-forwarded p reg mem n on h d d' e (loaded on)
  | inr off ↦
      let accessed = access-Accessed p.exmem p.mem e in
      let older = port-written p.memwb p.regs reg h d (pending off).1 in
      let younger =
        port-written n (written p.memwb p.regs) reg (written-IsRegisterFile p.memwb p.regs h)
          (dest-Accessed accessed d') (writes_to-Accessed reg accessed (pending off).0) in
      operand_stalling p reg off ∙ sym older ∙ sym younger
]

-- Without a stall, the instruction in ID can have its operands in the next cycle.
pub no_stall-Ready :
    (p : Pipeline)
    → p.ifid.bubble ≡ false
    → p.idex.ctrl.dest_reg < 16
    → p.exmem.ctrl.dest_reg < 16
    → detect_stall p ≡ false
    → (reg : ℕ)
    → (reg ≡ (make_control p.ifid.inst).a_reg) ⊎ (reg ≡ (make_control p.ifid.inst).b_reg)
    → (p.forwarding ≡ true → loads_into p.idex reg ≡ false)
      × (p.forwarding ≡ false → (writes_to p.idex reg ≡ false) × (writes_to p.exmem reg ≡ false))
unfolding detect_stall conflicts reads_reg
no_stall-Ready p real d d' flow reg (inl same) =
    (λ on. ground arith, λ off. (ground arith, ground arith))
no_stall-Ready p real d d' flow reg (inr same) =
    (λ on. ground arith, λ off. (ground arith, ground arith))

-- The same of EX/MEM alone.
pub no_stall_exmem :
    (p : Pipeline)
    → p.ifid.bubble ≡ false
    → p.exmem.ctrl.dest_reg < 16
    → detect_stall p ≡ false
    → (reg : ℕ)
    → (reg ≡ (make_control p.ifid.inst).a_reg) ⊎ (reg ≡ (make_control p.ifid.inst).b_reg)
    → p.forwarding ≡ false
    → writes_to p.exmem reg ≡ false
unfolding detect_stall conflicts reads_reg
no_stall_exmem p real d flow reg (inl same) off = ground arith
no_stall_exmem p real d flow reg (inr same) off = ground arith

pub writes_to_same :
    (l m : Latch) (reg : ℕ)
    → l.bubble ≡ m.bubble
    → l.ctrl ≡ m.ctrl
    → writes_to l reg ≡ writes_to m reg
writes_to_same l m reg hb hc i =
    not (hb i) && (hc i).reg_write && not ((hc i).dest_reg == 0) && (hc i).dest_reg == reg
