-- ===== src/Sim/Pipeline/Retire.antt =====
-- One cycle of src/sim/pipeline.cpp with an instruction in EX: the pipeline goes on to match the
-- state of the interpreter after that instruction.
use pipeline_lab.Prelude.{
  ℕ, ◌+◌, ◌≤◌, ◌<◌, ◌≡◌, refl, sym, ap, ◌∙◌, ◌⊎◌, arith, true, false, ok, inl, inr,
}
use mathlib.Core.Path.{subst}
use pipeline_lab.Words.{u32}
use pipeline_lab.Isa.Encoding.Decoding.{decode-IsDecoded}
use pipeline_lab.Asm.Program.{Program, code_bytes}
use pipeline_lab.Sim.Interpreter.{Interpreter}
use pipeline_lab.Sim.Interpreter.Semantics.{Executes-retired}
use pipeline_lab.Sim.RegisterFile.{IsRegisterFile}
use pipeline_lab.Sim.Pipeline.State.{Pipeline, make_control}
use pipeline_lab.Sim.Pipeline.Stages.{access, written, detect_stall, write_back, record_stages}
use pipeline_lab.Sim.Pipeline.Cycle.{commit}
use pipeline_lab.Sim.Pipeline.Forwarding.{
  access-Accessed, loads_into, loads_into_same, written-IsRegisterFile,
}
use pipeline_lab.Sim.Pipeline.Operands.{
  writes_to, writes_to_same, writes_to-Accessed, no_stall-Ready,
}
use pipeline_lab.Sim.Pipeline.Separation.{Older, older}
use pipeline_lab.Sim.Pipeline.Execution.{Commits}
use pipeline_lab.Sim.Pipeline.Stepping.{
  in_ex, cycle_flow, cycle_stall, counted, fetch_in_range, fetch_past_end, decode_stage_real,
  entered, will_fetch,
}
use pipeline_lab.Sim.Pipeline.Committing.{commit_through, commit_flush}
use pipeline_lab.Sim.Pipeline.Fetching.{AllDecode, fetch_some}
use pipeline_lab.Sim.Pipeline.Refinement.{
  Fetched, Entered, empty, one_fetched, last, full, if-two-one-le, Behind, Accounts, Rest,
}
use pipeline_lab.Sim.Pipeline.Advance.{Advances, done_dest}
use pipeline_lab.Sim.Pipeline.Working.{
  make_control-dest, counting, outcome, executed, flush_flows, Working, Working-Commits,
}

module _ (program : Program) (p : Pipeline) (s s' : Interpreter) (w : Working program p s s') where
  abbrev b : Behind p s
  b = w.behind

  abbrev e : Entered program p s.pc
  e = w.entered

  abbrev c : Commits p.idex (outcome p) (counting s) s'
  c = Working-Commits w

  idex_dest : (make_control p.idex.inst).dest_reg < 16
  idex_dest = make_control-dest p.idex.inst (decode-IsDecoded _ e.fetched.decodes)

  -- What the next pipeline holds behind EX.
  Behind-after :
      (next : Pipeline)
      → next.exmem ≡ (outcome p).next
      → next.memwb ≡ b.done
      → next.regs ≡ written p.memwb p.regs
      → next.mem ≡ s.mem
      → next.stats.retired ≡ p.stats.retired + 1
      → Behind next s'
  Behind-after next ex wb regs mem count = record {
    done = c.done;
    accessed = ap (λ m. access next.exmem m) mem ∙ ap (λ l. access l s.mem) ex ∙ c.accessed;
    written_back =
        ap (λ l. written c.done (written l next.regs)) wb
        ∙ ap (λ r. written c.done (written b.done r)) regs
        ∙ ap (written c.done) b.written_back
        ∙ c.written_back;
    sixteen = subst IsRegisterFile (sym regs) (written-IsRegisterFile p.memwb p.regs b.sixteen);
    exmem_dest =
        subst (λ l. l.ctrl.dest_reg < 16) (sym ex) (rw (c.same_control ∙ e.control) idex_dest);
    memwb_dest = subst (λ l. l.ctrl.dest_reg < 16) (sym wb) (done_dest p s b);
    retired = count ∙ ap (λ n. n + 1) b.retired ∙ sym (Executes-retired w.executes);
  }

  -- A jump or a taken branch: both younger instructions are flushed.
  pub retire_flush :
      AllDecode program
      → Rest program p s.pc
      → (outcome p).flush_younger ≡ true
      → Accounts p 0
      → Advances program p s' 2
  unfolding write_back record_stages
  retire_flush all rest flush acc =
      let q = counted (in_ex program p s.mem) in
      let flow = flush_flows program p s w.paced b e rest flush in
      let (count, target) = c.flushed flush in
      let (traced, next_id, l, fetch_eq) = fetch_some program q all w.fetching in
      let step =
        cycle_flow program p s.mem b.done _ l q _ (outcome p) _ b.accessed
          (executed program p s e.fetched.real) flow refl refl fetch_eq
        ∙ ap ok (commit_flush _ (outcome p) _ _ _ _ flush c.goes_on count) in
      record {
        next = _;
        cycles = step;
        agrees = record {
          paced = w.paced;
          fetching = w.fetching;
          behind = Behind-after _ refl refl refl refl refl;
          front = empty refl refl target;
          accounts = omega arith;
        };
        waits = omega arith;
      }

  module _ (f : Fetched program p.ifid (u32 (s.pc + 4))) (here : p.pc ≡ u32 (u32 (s.pc + 4) + 4))
      (through : (outcome p).flush_younger ≡ false) (acc : Accounts p 0) where
    on_path : s'.pc ≡ u32 (s.pc + 4)
    on_path = c.sequential through

    in_ifid : Fetched program p.ifid s'.pc
    in_ifid = record {
      real = f.real;
      here = f.here ∙ sym on_path;
      in_code = rw on_path f.in_code;
      decodes = rw on_path f.decodes;
    }

    at_pc : p.pc ≡ u32 (s'.pc + 4)
    at_pc = here ∙ ap (λ (a : ℕ). u32 (a + 4)) (sym on_path)

    -- The instruction in ID needs what EX or MEM is about to deliver: it waits in ID.
    pub retire_stall : detect_stall p ≡ true → Advances program p s' 2
    unfolding write_back record_stages commit
    retire_stall stall =
        let q = counted (in_ex program p s.mem) in
        record {
          next = _;
          cycles =
              cycle_stall program p s.mem b.done q (outcome p) b.accessed
                (executed program p s e.fetched.real) stall;
          agrees = record {
            paced = w.paced;
            fetching = w.fetching;
            behind = Behind-after _ refl refl refl refl refl;
            front = one_fetched refl in_ifid at_pc;
            accounts = omega arith;
          };
          waits = if-two-one-le _;
        }

    -- Without a stall, EX can have the operands of the instruction in ID in the next cycle.
    next_ready :
        detect_stall p ≡ false
        → (reg : ℕ)
        → (reg ≡ (make_control p.ifid.inst).a_reg) ⊎ (reg ≡ (make_control p.ifid.inst).b_reg)
        → (p.forwarding ≡ true → loads_into (outcome p).next reg ≡ false)
          × (p.forwarding ≡ false
              → (writes_to (outcome p).next reg ≡ false) × (writes_to b.done reg ≡ false))
    next_ready flow reg which =
        let dest : p.idex.ctrl.dest_reg < 16 = rw e.control idex_dest in
        let (loaded, pending) = no_stall-Ready p f.real dest b.exmem_dest flow reg which in
        let live = c.live ∙ sym e.fetched.real in
        (
          λ on. loads_into_same (outcome p).next p.idex reg live c.same_control ∙ loaded on,
          λ off. (
            writes_to_same (outcome p).next p.idex reg live c.same_control ∙ (pending off).0,
            writes_to-Accessed reg (access-Accessed p.exmem p.mem b.accessed) (pending off).1,
          ),
        )

    in_front : Older program (outcome p).next s'.pc
    in_front =
        older s.pc p.idex.inst e.fetched.in_code e.fetched.decodes (c.same_control ∙ e.control)
          (sym on_path)

    -- Any other instruction: the next one enters EX, and the one after it is fetched.
    pub retire_full :
        AllDecode program
        → detect_stall p ≡ false
        → p.pc < code_bytes program
        → Advances program p s' 2
    unfolding write_back record_stages
    retire_full all flow in_code =
        let q = counted (in_ex program p s.mem) in
        let on : p.fetch_stopped ≡ false = w.fetching in
        let fetches : will_fetch program p ≡ true = ground arith in
        let (inst, decodes) = all p.pc in_code in
        let step =
          cycle_flow program p s.mem b.done (entered q) _ q _ (outcome p) true b.accessed
            (executed program p s e.fetched.real) flow fetches (decode_stage_real q f.real)
            (fetch_in_range program q inst w.fetching in_code decodes)
          ∙ ap ok (commit_through true (outcome p) _ _ _ _ through) in
        record {
          next = _;
          cycles = step;
          agrees = record {
            paced = w.paced;
            fetching = w.fetching;
            behind = Behind-after _ refl refl refl refl refl;
            front =
                full
                  (record {
                    fetched = record {
                      real = refl;
                      here = in_ifid.here;
                      in_code = in_ifid.in_code;
                      decodes = in_ifid.decodes;
                    };
                    control = refl;
                    a_port = refl;
                    b_port = refl;
                    a_ready = next_ready flow _ (inl refl);
                    b_ready = next_ready flow _ (inr refl);
                    front = in_front;
                  })
                  (record {
                    real = refl;
                    here = at_pc;
                    in_code = rw (← at_pc) in_code;
                    decodes = rw (← at_pc) decodes;
                  })
                  (ap (λ (a : ℕ). u32 (a + 4)) at_pc);
            accounts = omega arith;
          };
          waits = omega arith;
        }

    -- The same where nothing is left to fetch.
    pub retire_last : detect_stall p ≡ false → code_bytes program ≤ p.pc → Advances program p s' 2
    unfolding write_back record_stages
    retire_last flow past =
        let q = counted (in_ex program p s.mem) in
        let fetches : will_fetch program p ≡ false = ground arith in
        let step =
          cycle_flow program p s.mem b.done (entered q) _ q _ (outcome p) false b.accessed
            (executed program p s e.fetched.real) flow fetches (decode_stage_real q f.real)
            (fetch_past_end program q past)
          ∙ ap ok (commit_through false (outcome p) _ _ _ _ through) in
        record {
          next = _;
          cycles = step;
          agrees = record {
            paced = w.paced;
            fetching = w.fetching;
            behind = Behind-after _ refl refl refl refl refl;
            front =
                last
                  (record {
                    fetched = record {
                      real = refl;
                      here = in_ifid.here;
                      in_code = in_ifid.in_code;
                      decodes = in_ifid.decodes;
                    };
                    control = refl;
                    a_port = refl;
                    b_port = refl;
                    a_ready = next_ready flow _ (inl refl);
                    b_ready = next_ready flow _ (inr refl);
                    front = in_front;
                  })
                  refl at_pc (rw (← at_pc) past);
            accounts = omega arith;
          };
          waits = omega arith;
        }
