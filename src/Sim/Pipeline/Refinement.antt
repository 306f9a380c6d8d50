-- ===== src/Sim/Pipeline/Refinement.antt =====
-- The pipeline of src/sim/pipeline.cpp beside the interpreter of src/sim/interpreter.cpp: between
-- two cycles its latches, registers and memory hold a state of the interpreter.
use pipeline_lab.Prelude.{ℕ, ◌+◌, ◌*◌, ◌≤◌, ◌<◌, ◌≡◌, Bool, arith, if◌then◌else◌, true, false, ok}
use pipeline_lab.Words.{u32}
use pipeline_lab.Isa.Encoding.{decode}
use pipeline_lab.Asm.Program.{Program, code_bytes, word_at}
use pipeline_lab.Sim.RegisterFile.{IsRegisterFile}
use pipeline_lab.Sim.Interpreter.{Interpreter}
use pipeline_lab.Sim.Pipeline.State.{Latch, Pipeline, make_control}
use pipeline_lab.Sim.Pipeline.Stages.{access, written, port, detect_stall}
use pipeline_lab.Sim.Pipeline.Operands.{Ready}
use pipeline_lab.Sim.Pipeline.Separation.{Separated, Older}

-- The latch holds the instruction that stands at `pc`.
pub record Fetched (program : Program) (l : Latch) (pc : ℕ) : Type 0 where
  pub real : l.bubble ≡ false
  pub here : l.pc ≡ pc
  pub in_code : pc < code_bytes program
  pub decodes : decode (word_at program pc) ≡ ok l.inst

-- ID/EX holds the instruction at `pc`, with the registers' operands, and EX can have its operands.
pub record Entered (program : Program) (p : Pipeline) (pc : ℕ) : Type 0 where
  pub fetched : Fetched program p.idex pc
  pub control : p.idex.ctrl ≡ make_control p.idex.inst
  pub a_port : p.idex.a_val ≡ port p.regs (make_control p.idex.inst).a_reg
  pub b_port : p.idex.b_val ≡ port p.regs (make_control p.idex.inst).b_reg
  pub a_ready : Ready p (make_control p.idex.inst).a_reg
  pub b_ready : Ready p (make_control p.idex.inst).b_reg
  pub front : Older program p.exmem pc

-- Which of the instructions from `pc` on are in IF/ID and ID/EX.
pub data Front (program : Program) (p : Pipeline) (pc : ℕ) : Type 0 where
  empty : p.idex.bubble ≡ true → p.ifid.bubble ≡ true → p.pc ≡ pc → Front program p pc
  one_fetched :
      p.idex.bubble ≡ true → Fetched program p.ifid pc → p.pc ≡ u32 (pc + 4) → Front program p pc
  last :
      Entered program p pc
      → p.ifid.bubble ≡ true
      → p.pc ≡ u32 (pc + 4)
      → code_bytes program ≤ u32 (pc + 4)
      → Front program p pc
  full :
      Entered program p pc
      → Fetched program p.ifid (u32 (pc + 4))
      → p.pc ≡ u32 (u32 (pc + 4) + 4)
      → Front program p pc

-- The cycles until the next instruction is in EX.
abbrev pub wait : {program : Program} {p : Pipeline} {pc : ℕ} → Front program p pc → ℕ
wait (empty _ _ _) = 2
wait (one_fetched _ _ _) = 1
wait (last _ _ _ _) = 0
wait (full _ _ _) = 0

-- The cycles until then with those of a stall.
abbrev pub patience : {program : Program} {p : Pipeline} {pc : ℕ} → Front program p pc → ℕ
patience (empty _ _ _) = 2
patience {p = p} (one_fetched _ _ _) = if detect_stall p then 2 else 1
patience (last _ _ _ _) = 0
patience (full _ _ _) = 0

pub if-two-one-le : (b : Bool) → (if b then 2 else 1) ≤ 2
if-two-one-le true = omega arith
if-two-one-le false = omega arith

-- What stands behind the instruction in EX.
pub data Rest (program : Program) (p : Pipeline) (pc : ℕ) : Type 0 where
  at_end : p.ifid.bubble ≡ true → code_bytes program ≤ u32 (pc + 4) → Rest program p pc
  follows :
      Fetched program p.ifid (u32 (pc + 4)) → p.pc ≡ u32 (u32 (pc + 4) + 4) → Rest program p pc

-- The instructions before the interpreter's PC are in EX/MEM and MEM/WB or have retired: once these
-- two latches have accessed memory and written back, registers and memory are the interpreter's.
pub record Behind (p : Pipeline) (s : Interpreter) : Type 0 where
  pub done : Latch
  pub accessed : access p.exmem p.mem ≡ ok (s.mem, done)
  pub written_back : written done (written p.memwb p.regs) ≡ s.regs
  pub sixteen : IsRegisterFile p.regs
  pub exmem_dest : p.exmem.ctrl.dest_reg < 16
  pub memwb_dest : p.memwb.ctrl.dest_reg < 16
  pub retired : p.stats.retired ≡ s.retired

-- The cycle count is the instructions, the stalls, the flush penalties and what the front waits.
abbrev pub Accounts : Pipeline → ℕ → Type 0
Accounts p waiting =
    (p.cycle + waiting ≡ p.stats.retired + p.stats.stall_cycles + p.stats.flush_bubbles + 2)
    × (p.stats.flush_bubbles ≡ 2 * p.stats.flushes)
    × (p.stats.cycles ≡ p.cycle)

-- Without forwarding, the program keeps readers away from control transfers.
abbrev pub Paced : Program → Bool → Type 0
Paced program forwarding = forwarding ≡ false → Separated program

pub record Matches (program : Program) (p : Pipeline) (s : Interpreter) : Type 0 where
  pub paced : Paced program p.forwarding
  pub fetching : p.fetch_stopped ≡ false
  pub behind : Behind p s
  pub front : Front program p s.pc
  pub accounts : Accounts p (wait front)
