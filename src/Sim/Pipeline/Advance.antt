-- ===== src/Sim/Pipeline/Advance.antt =====
-- One cycle of src/sim/pipeline.cpp while the next instruction is on its way to EX: the pipeline
-- goes on matching the same state of the interpreter.
use pipeline_lab.Prelude.{
  ℕ, ◌+◌, ◌≤◌, ◌<◌, ◌≡◌, refl, sym, ap, ◌∙◌, ◌⊎◌, inl, inr, arith, Bool, true, false, ok,
  if◌then◌else◌,
}
use mathlib.Core.Path.{subst}
use pipeline_lab.Words.{u32}
use pipeline_lab.Isa.Instruction.{Instruction}
use pipeline_lab.Isa.Encoding.{decode}
use pipeline_lab.Asm.Program.{Program, code_bytes, word_at}
use pipeline_lab.Sim.RegisterFile.{IsRegisterFile}
use pipeline_lab.Sim.Interpreter.{Interpreter}
use pipeline_lab.Sim.Pipeline.State.{empty_latch, Pipeline, make_control, reads_reg}
use pipeline_lab.Sim.Pipeline.Stages.{
  access, written, quiet, detect_stall, write_back, record_stages, conflicts,
}
use pipeline_lab.Sim.Pipeline.Cycle.{cycle, commit}
use pipeline_lab.Sim.Pipeline.Forwarding.{
  Accessed, idle, busy, access-Accessed, written-IsRegisterFile, loads_into,
}
use pipeline_lab.Sim.Pipeline.Operands.{writes_to, writes_to-Accessed, no_stall_exmem}
use pipeline_lab.Sim.Pipeline.Separation.{no_older}
use pipeline_lab.Sim.Pipeline.Stepping.{
  in_ex, cycle_flow, cycle_stall, execute_idle, fetch_in_range, fetch_past_end, decode_stage_idle,
  decode_stage_real, entered, will_fetch,
}
use pipeline_lab.Sim.Pipeline.Committing.{no_stall_ifid}
use pipeline_lab.Sim.Pipeline.Refinement.{
  Fetched, one_fetched, last, full, patience, Behind, Accounts, Matches, Paced,
}

-- Nothing in EX and MEM stalls nothing.
quiet_flows : (q : Pipeline) → q.idex.bubble ≡ true → q.exmem.bubble ≡ true → detect_stall q ≡ false
unfolding detect_stall conflicts reads_reg
quiet_flows q no_idex no_exmem = ground arith

if-two-one-flows : (stall : Bool) → stall ≡ false → (if stall then 2 else 1) ≤ 1
if-two-one-flows stall flow = ground arith

-- A cycle ends in a pipeline that matches `s`, in which the next instruction is in EX after at most
-- `n` further cycles.
pub record Advances (program : Program) (p : Pipeline) (s : Interpreter) (n : ℕ) : Type 0 where
  pub next : Pipeline
  pub cycles : cycle program p ≡ ok next
  pub agrees : Matches program next s
  pub waits : patience agrees.front ≤ n

pub done_dest : (p : Pipeline) (s : Interpreter) (b : Behind p s) → b.done.ctrl.dest_reg < 16
done_dest p s b = go (access-Accessed p.exmem p.mem b.accessed)
  where
    go : Accessed p.exmem b.done → b.done.ctrl.dest_reg < 16
    go (idle _ same) = rw same (omega arith)
    go (busy value _ same _) = rw same b.exmem_dest

module _ (program : Program) (p : Pipeline) (s : Interpreter) (paced : Paced program p.forwarding)
    (fetching : p.fetch_stopped ≡ false) (b : Behind p s) where
  -- What the next pipeline holds behind EX if nothing was in EX.
  behind_idle :
      (next : Pipeline)
      → next.exmem ≡ empty_latch
      → next.memwb ≡ b.done
      → next.regs ≡ written p.memwb p.regs
      → next.mem ≡ s.mem
      → next.stats.retired ≡ p.stats.retired
      → Behind next s
  unfolding access written
  behind_idle next ex wb regs mem count = record {
    done = empty_latch;
    accessed = ap (λ m. access next.exmem m) mem ∙ ap (λ l. access l s.mem) ex;
    written_back =
        ap (λ l. written empty_latch (written l next.regs)) wb
        ∙ ap (λ r. written empty_latch (written b.done r)) regs
        ∙ b.written_back;
    sixteen = subst IsRegisterFile (sym regs) (written-IsRegisterFile p.memwb p.regs b.sixteen);
    exmem_dest = subst (λ l. l.ctrl.dest_reg < 16) (sym ex) (omega arith);
    memwb_dest = subst (λ l. l.ctrl.dest_reg < 16) (sym wb) (done_dest p s b);
    retired = count ∙ b.retired;
  }

  -- The operands of an instruction that enters EX behind a bubble.
  entering_ready :
      p.ifid.bubble ≡ false
      → detect_stall p ≡ false
      → (reg : ℕ)
      → (reg ≡ (make_control p.ifid.inst).a_reg) ⊎ (reg ≡ (make_control p.ifid.inst).b_reg)
      → (p.forwarding ≡ true → loads_into empty_latch reg ≡ false)
        × (p.forwarding ≡ false
            → (writes_to empty_latch reg ≡ false) × (writes_to b.done reg ≡ false))
  entering_ready real flow reg which = (
    λ on. refl,
    λ off. (
      refl,
      writes_to-Accessed reg (access-Accessed p.exmem p.mem b.accessed)
          (no_stall_exmem p real b.exmem_dest flow reg which off),
    ),
  )

  pub advance_empty :
      (inst : Instruction)
      → p.idex.bubble ≡ true
      → p.ifid.bubble ≡ true
      → p.pc ≡ s.pc
      → s.pc < code_bytes program
      → decode (word_at program s.pc) ≡ ok inst
      → Accounts p 2
      → Advances program p s 1
  unfolding write_back record_stages commit access written
  advance_empty inst no_idex no_ifid here in_code decodes acc =
      let q = in_ex program p s.mem in
      let flow : detect_stall p ≡ false = no_stall_ifid p no_ifid in
      let fetches : will_fetch program p ≡ true = ground arith in
      let fetch_eq =
        fetch_in_range program q inst fetching (rw here in_code)
          (ap (λ a. decode (word_at program a)) here ∙ decodes) in
      let step =
        cycle_flow program p s.mem b.done empty_latch _ q _ (quiet empty_latch) true b.accessed
          (execute_idle q no_idex) flow fetches (decode_stage_idle q no_ifid) fetch_eq in
      record {
        next = _;
        cycles = step;
        agrees = record {
          paced = paced;
          fetching = fetching;
          behind = behind_idle _ refl refl refl refl refl;
          front =
              one_fetched refl
                (record { real = refl; here = here; in_code = in_code; decodes = decodes })
                (ap (λ (a : ℕ). u32 (a + 4)) here);
          accounts = omega arith;
        };
        waits = if-two-one-flows _ (quiet_flows _ refl refl);
      }

  -- The instruction in IF/ID enters EX next; the one behind it is fetched.
  pub advance-Fetched :
      (inst : Instruction)
      → p.idex.bubble ≡ true
      → Fetched program p.ifid s.pc
      → p.pc ≡ u32 (s.pc + 4)
      → p.pc < code_bytes program
      → decode (word_at program p.pc) ≡ ok inst
      → detect_stall p ≡ false
      → Accounts p 1
      → Advances program p s 0
  unfolding write_back record_stages commit access written
  advance-Fetched inst no_idex f here in_code decodes flow acc =
      let q = in_ex program p s.mem in
      let real : p.ifid.bubble ≡ false = f.real in
      let fetches : will_fetch program p ≡ true = ground arith in
      let fetch_eq = fetch_in_range program q inst fetching in_code decodes in
      let step =
        cycle_flow program p s.mem b.done (entered q) _ q _ (quiet empty_latch) true b.accessed
          (execute_idle q no_idex) flow fetches (decode_stage_real q real) fetch_eq in
      record {
        next = _;
        cycles = step;
        agrees = record {
          paced = paced;
          fetching = fetching;
          behind = behind_idle _ refl refl refl refl refl;
          front =
              full
                (record {
                  fetched = record {
                    real = refl;
                    here = f.here;
                    in_code = f.in_code;
                    decodes = f.decodes;
                  };
                  control = refl;
                  a_port = refl;
                  b_port = refl;
                  a_ready = entering_ready real flow _ (inl refl);
                  b_ready = entering_ready real flow _ (inr refl);
                  front = no_older refl;
                })
                (record {
                  real = refl;
                  here = here;
                  in_code = rw (← here) in_code;
                  decodes = rw (← here) decodes;
                })
                (ap (λ (a : ℕ). u32 (a + 4)) here);
          accounts = omega arith;
        };
        waits = omega arith;
      }

  -- The same past the end of the code.
  pub advance_last :
      p.idex.bubble ≡ true
      → Fetched program p.ifid s.pc
      → p.pc ≡ u32 (s.pc + 4)
      → code_bytes program ≤ p.pc
      → detect_stall p ≡ false
      → Accounts p 1
      → Advances program p s 0
  unfolding write_back record_stages commit access written
  advance_last no_idex f here past flow acc =
      let q = in_ex program p s.mem in
      let real : p.ifid.bubble ≡ false = f.real in
      let fetches : will_fetch program p ≡ false = ground arith in
      let step =
        cycle_flow program p s.mem b.done (entered q) _ q _ (quiet empty_latch) false b.accessed
          (execute_idle q no_idex) flow fetches (decode_stage_real q real)
          (fetch_past_end program q past) in
      record {
        next = _;
        cycles = step;
        agrees = record {
          paced = paced;
          fetching = fetching;
          behind = behind_idle _ refl refl refl refl refl;
          front =
              last
                (record {
                  fetched = record {
                    real = refl;
                    here = f.here;
                    in_code = f.in_code;
                    decodes = f.decodes;
                  };
                  control = refl;
                  a_port = refl;
                  b_port = refl;
                  a_ready = entering_ready real flow _ (inl refl);
                  b_ready = entering_ready real flow _ (inr refl);
                  front = no_older refl;
                })
                refl here (rw (← here) past);
          accounts = omega arith;
        };
        waits = omega arith;
      }

  -- Without forwarding the instruction in IF/ID may have to wait for one in MEM.
  pub advance_stalled :
      p.idex.bubble ≡ true
      → Fetched program p.ifid s.pc
      → p.pc ≡ u32 (s.pc + 4)
      → detect_stall p ≡ true
      → Accounts p 1
      → Advances program p s 1
  unfolding write_back record_stages commit
  advance_stalled no_idex f here stall acc =
      let q = in_ex program p s.mem in
      record {
        next = _;
        cycles =
            cycle_stall program p s.mem b.done q (quiet empty_latch) b.accessed
              (execute_idle q no_idex) stall;
        agrees = record {
          paced = paced;
          fetching = fetching;
          behind = behind_idle _ refl refl refl refl refl;
          front =
              one_fetched refl
                (record { real = f.real; here = f.here; in_code = f.in_code; decodes = f.decodes })
                here;
          accounts = omega arith;
        };
        waits = if-two-one-flows _ (quiet_flows _ refl refl);
      }
