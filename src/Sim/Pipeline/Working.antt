-- ===== src/Sim/Pipeline/Working.antt =====
-- The instruction in EX of src/sim/pipeline.cpp: its operands are the interpreter's, so EX computes
-- what the interpreter does, and what it flushes does not stall.
use pipeline_lab.Prelude.{
  ℕ, ◌+◌, ◌<◌, ◌≡◌, refl, sym, ap, ◌∙◌, arith, true, false, Bool-cases, inl, inr,
}
use mathlib.Core.Path.{subst}
use pipeline_lab.Isa.Instruction.{Instruction}
use pipeline_lab.Isa.Encoding.Decoding.{IsDecoded, decode-IsDecoded}
use pipeline_lab.Asm.Program.{Program}
use pipeline_lab.Sim.Interpreter.{Interpreter}
use pipeline_lab.Sim.Interpreter.Semantics.{Executes}
use pipeline_lab.Sim.Bounds.{AreWords}
use pipeline_lab.Sim.RegisterFile.{RegisterFile}
use pipeline_lab.Sim.Pipeline.State.{Latch, Pipeline, make_control}
use pipeline_lab.Sim.Pipeline.Stages.{
  port, operand, forwarded, execute, execute_latch, Execution, detect_stall, write_back,
  record_stages,
}
use pipeline_lab.Sim.Pipeline.Operands.{operand-Ready, Ready}
use pipeline_lab.Sim.Pipeline.Separation.{flush_transfers, transfer_flows}
use pipeline_lab.Sim.Pipeline.Execution.{Commits, execute_latch_commits, decoded_latch}
use pipeline_lab.Sim.Pipeline.Stepping.{in_ex, execute_real, counted}
use pipeline_lab.Sim.Pipeline.Committing.{no_stall_ifid}
use pipeline_lab.Sim.Pipeline.Hazards.{flush_excludes_stall}
use pipeline_lab.Sim.Pipeline.Refinement.{Entered, Behind, Paced, Rest, at_end, follows}

pub make_control-dest : (inst : Instruction) → IsDecoded inst → (make_control inst).dest_reg < 16
unfolding make_control
make_control-dest inst d = ground (arith, d.rd_small)

-- The state in which an instruction executes: it has been counted.
abbrev pub counting : Interpreter → Interpreter
counting s = record s { retired = s.retired + 1 }

-- The operands that EX works on.
abbrev pub ex_a : Pipeline → ℕ
ex_a p = operand (forwarded p p.idex.ctrl.a_reg) p.idex.a_val

abbrev pub ex_b : Pipeline → ℕ
ex_b p = operand (forwarded p p.idex.ctrl.b_reg) p.idex.b_val

abbrev pub outcome : Pipeline → Execution
outcome p = execute_latch p.idex (ex_a p) (ex_b p)

pub executed :
    (program : Program) (p : Pipeline) (s : Interpreter)
    → p.idex.bubble ≡ false
    → execute (in_ex program p s.mem) ≡ (counted (in_ex program p s.mem), outcome p)
unfolding write_back record_stages forwarded
executed program p s real = execute_real (in_ex program p s.mem) real

module _ (program : Program) (p : Pipeline) (s : Interpreter) (paced : Paced program p.forwarding)
    (b : Behind p s) (e : Entered program p s.pc) where
  -- An operand of EX, where the read port has given `val`.
  operand_lem :
      (reg val : ℕ)
      → val ≡ port p.regs reg
      → Ready p reg
      → operand (forwarded p reg) val ≡ port s.regs reg
  operand_lem reg val at ready =
      ap (operand (forwarded p reg)) at
      ∙ operand-Ready p reg s.mem b.done b.sixteen b.memwb_dest b.exmem_dest b.accessed ready
      ∙ ap (λ (r : RegisterFile). port r reg) b.written_back

  pub ex_a_lem : port s.regs (make_control p.idex.inst).a_reg ≡ ex_a p
  ex_a_lem = sym (
      ap (λ c. operand (forwarded p c.a_reg) p.idex.a_val) e.control
      ∙ operand_lem _ _ e.a_port e.a_ready)

  pub ex_b_lem : port s.regs (make_control p.idex.inst).b_reg ≡ ex_b p
  ex_b_lem = sym (
      ap (λ c. operand (forwarded p c.b_reg) p.idex.b_val) e.control
      ∙ operand_lem _ _ e.b_port e.b_ready)

  -- The latch in EX is the one of the instruction at the interpreter's PC.
  pub idex_latch : decoded_latch p.idex s ≡ p.idex
  idex_latch i = record (p.idex) {
    bubble = sym e.fetched.real i;
    ctrl = sym e.control i;
    pc = sym e.fetched.here i;
  }

  pub entered_commits :
      {s' : Interpreter}
      → AreWords s.regs s.mem
      → Executes p.idex.inst (counting s) s'
      → Commits p.idex (outcome p) (counting s) s'
  entered_commits {s'} words x =
      subst (λ (t : Latch × ℕ × ℕ). Commits t.0 (execute_latch t.0 t.1 t.2) (counting s) s')
        (λ i. (idex_latch i, ex_a_lem i, ex_b_lem i))
        (execute_latch_commits p.idex (counting s) (decode-IsDecoded _ e.fetched.decodes) words x)

  -- What flushes does not stall: with forwarding because only loads stall, without because the
  -- program is separated.
  pub flush_flows : Rest program p s.pc → (outcome p).flush_younger ≡ true → detect_stall p ≡ false
  flush_flows (at_end no_ifid _) flush = no_stall_ifid p no_ifid
  flush_flows (follows f _) flush = elim (Bool-cases p.forwarding) [
    | inl on ↦ flush_excludes_stall p (ex_a p) (ex_b p) on e.control flush
    | inr off ↦
        transfer_flows program p s.pc p.idex.inst p.ifid.inst (paced off) off e.fetched.in_code
          e.fetched.decodes e.control (flush_transfers p.idex (ex_a p) (ex_b p) flush) e.front
          f.in_code f.decodes refl
  ]

-- The instruction at the PC of `s` is in EX, and takes the interpreter from `s` to `s'`.
pub record Working (program : Program) (p : Pipeline) (s s' : Interpreter) : Type 0 where
  pub paced : Paced program p.forwarding
  pub fetching : p.fetch_stopped ≡ false
  pub behind : Behind p s
  pub entered : Entered program p s.pc
  pub words : AreWords s.regs s.mem
  pub executes : Executes p.idex.inst (counting s) s'

pub Working-Commits :
    {program : Program} {p : Pipeline} {s s' : Interpreter}
    → Working program p s s'
    → Commits p.idex (outcome p) (counting s) s'
Working-Commits {program} {p} {s} w =
    entered_commits program p s w.paced w.behind w.entered w.words w.executes
