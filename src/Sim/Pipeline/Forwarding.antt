-- ===== src/Sim/Pipeline/Forwarding.antt =====
-- The forwarding unit of src/sim/pipeline.cpp delivers the operand that the registers will hold
-- once the older instructions have written back.
use pipeline_lab.Prelude.{
  ℕ, ◌<◌, ◌≡◌, refl, arith, Bool-cases, inl, inr, Bool, true, false, ok, if◌then◌else◌, ◌&&◌, not,
  ◌==◌,
}
use pipeline_lab.Isa.Instruction.{zero_reg}
use pipeline_lab.Sim.RegisterFile.{
  RegisterFile, IsRegisterFile, read, read-write, write-IsRegisterFile,
}
use pipeline_lab.Sim.Memory.{DataMemory}
use pipeline_lab.Sim.Pipeline.State.{Latch, empty_latch, Pipeline}
use pipeline_lab.Sim.Pipeline.Stages.{access, written, forwarded, operand, port}

-- What MEM passes on: a bubble for a bubble, else the latch with its result, which is the ALU's
-- unless it was loaded.
pub data Accessed (l : Latch) (n : Latch) : Type 0 where
  idle : l.bubble ≡ true → n ≡ empty_latch → Accessed l n
  busy :
      (value : ℕ)
      → l.bubble ≡ false
      → n ≡ record l { write_data = value }
      → (l.ctrl.mem_read ≡ false → value ≡ l.alu_result)
      → Accessed l n

pub access-Accessed :
    (l : Latch) (mem : DataMemory) {mem' : DataMemory} {n : Latch}
    → access l mem ≡ ok (mem', n)
    → Accessed l n
unfolding access
access-Accessed l mem {n} e = elim (Bool-cases l.bubble) [
  | inl b ↦ idle b (ground arith)
  | inr b ↦ busy n.write_data b (ground arith) (λ m. ground arith)
]

-- A read of the registers after a latch has written back.
pub read-written :
    (l : Latch) (r : RegisterFile) (j : ℕ)
    → IsRegisterFile r
    → l.ctrl.dest_reg < 16
    → read (written l r) j ≡ (
        if not l.bubble
          && l.ctrl.reg_write
          && not (l.ctrl.dest_reg == zero_reg)
          && l.ctrl.dest_reg == j
        then l.write_data
        else read r j)
unfolding written
read-written l r j h d = ground (arith, read-write r l.ctrl.dest_reg j l.write_data h d)

pub written-IsRegisterFile :
    (l : Latch) (r : RegisterFile) → IsRegisterFile r → IsRegisterFile (written l r)
unfolding written
written-IsRegisterFile l r h = ground (arith, write-IsRegisterFile r l.ctrl.dest_reg l.write_data h)

-- The latch in EX/MEM is a load into the register `reg`.
abbrev pub loads_into : Latch → ℕ → Bool
loads_into l reg =
    not l.bubble
    && l.ctrl.mem_read
    && l.ctrl.reg_write
    && not (l.ctrl.dest_reg == 0)
    && l.ctrl.dest_reg == reg

forward_idle :
    (p : Pipeline) (reg : ℕ)
    → p.forwarding ≡ true
    → IsRegisterFile p.regs
    → p.memwb.ctrl.dest_reg < 16
    → p.exmem.bubble ≡ true
    → operand (forwarded p reg) (port p.regs reg) ≡ port (written p.memwb p.regs) reg
unfolding forwarded port
forward_idle p reg on h d b = ground (arith, read-written p.memwb p.regs reg h d)

forward_busy :
    (p : Pipeline) (reg value : ℕ)
    → p.forwarding ≡ true
    → IsRegisterFile p.regs
    → p.memwb.ctrl.dest_reg < 16
    → p.exmem.ctrl.dest_reg < 16
    → p.exmem.bubble ≡ false
    → (p.exmem.ctrl.mem_read ≡ false → value ≡ p.exmem.alu_result)
    → loads_into p.exmem reg ≡ false
    → operand (forwarded p reg) (port p.regs reg)
      ≡ port (written (record (p.exmem) { write_data = value }) (written p.memwb p.regs)) reg
unfolding forwarded port
forward_busy p reg value on h d d' b alu free = ground (
  arith,
  read-written (record (p.exmem) { write_data = value }) (written p.memwb p.regs) reg
      (written-IsRegisterFile p.memwb p.regs h) d',
  read-written p.memwb p.regs reg h d,
)

written-empty : (r : RegisterFile) → written empty_latch r ≡ r
unfolding written
written-empty r = refl

-- With forwarding on, 16 registers, destinations below 16, an access in MEM that succeeds and no
-- load in EX/MEM into the operand's register, EX gets the value that the register holds once the
-- two older instructions have written back.
pub operand-forwarded :
    (p : Pipeline) (reg : ℕ) (mem : DataMemory) (n : Latch)
    → p.forwarding ≡ true
    → IsRegisterFile p.regs
    → p.memwb.ctrl.dest_reg < 16
    → p.exmem.ctrl.dest_reg < 16
    → access p.exmem p.mem ≡ ok (mem, n)
    → loads_into p.exmem reg ≡ false
    → operand (forwarded p reg) (port p.regs reg) ≡ port (written n (written p.memwb p.regs)) reg
operand-forwarded p reg mem n on h d d' e free = go (access-Accessed p.exmem p.mem e)
  where
    go :
        Accessed p.exmem n
        → operand (forwarded p reg) (port p.regs reg)
          ≡ port (written n (written p.memwb p.regs)) reg
    go (idle b same) = rw (same, written-empty) (forward_idle p reg on h d b)
    go (busy value b same alu) = rw same (forward_busy p reg value on h d d' b alu free)

pub loads_into_same :
    (l m : Latch) (reg : ℕ)
    → l.bubble ≡ m.bubble
    → l.ctrl ≡ m.ctrl
    → loads_into l reg ≡ loads_into m reg
loads_into_same l m reg hb hc i =
    not (hb i)
    && (hc i).mem_read
    && (hc i).reg_write
    && not ((hc i).dest_reg == 0)
    && (hc i).dest_reg == reg
