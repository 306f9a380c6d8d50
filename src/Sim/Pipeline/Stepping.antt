-- ===== src/Sim/Pipeline/Stepping.antt =====
-- The parts of one cycle of src/sim/pipeline.cpp, each in the case that it stands in.
use pipeline_lab.Prelude.{
  ◌+◌, ◌/◌, ◌≤◌, ◌<◌, ◌≡◌, ◌∙◌, arith, get_or, Bool, true, false, not, ◌&&◌, ◌||◌, ltb,
  if◌then◌else◌, if-true, if-false, ok, ◌++◌, ◌∷◌, [],
}
use pipeline_lab.Prelude.Int.{pos, negsuc}
use pipeline_lab.Isa.Instruction.{Instruction}
use pipeline_lab.Isa.Encoding.{decode}
use pipeline_lab.Isa.Disassemble.{disassemble}
use pipeline_lab.Asm.Program.{Program, code_bytes, word_at}
use pipeline_lab.Sim.Memory.{DataMemory}
use pipeline_lab.Sim.Pipeline.State.{Latch, empty_latch, Pipeline, TracedInstr, make_control}
use pipeline_lab.Sim.Pipeline.Stages.{
  access, execute, Execution, execute_latch, quiet, forwarded, operand, count_forward, decode_stage,
  port, fetch_into, detect_stall, write_back, record_stages,
}
use pipeline_lab.Sim.Pipeline.Cycle.{cycle, commit}

abbrev pub will_fetch : Program → Pipeline → Bool
will_fetch program p = not (detect_stall p) && not p.fetch_stopped && ltb p.pc (code_bytes program)

-- The pipeline of a cycle when EX begins.
abbrev pub in_ex : Program → Pipeline → DataMemory → Pipeline
in_ex program p mem =
    record (write_back (
      record_stages (will_fetch program p)
        (if will_fetch program p then pos p.next_id else negsuc 0)
        (record p { cycle = p.cycle + 1; stats = record (p.stats) { cycles = p.cycle + 1 } }))) {
          mem = mem;
        }

pub cycle_lem :
    (program : Program) (p : Pipeline) (mem : DataMemory) (n n_ifid : Latch) (q r : Pipeline)
    (ex : Execution)
    → access p.exmem p.mem ≡ ok (mem, n)
    → execute (in_ex program p mem) ≡ (q, ex)
    → (if detect_stall p then ok (q, empty_latch) else fetch_into program q) ≡ ok (r, n_ifid)
    → cycle program p
      ≡ ok (commit (detect_stall p) (will_fetch program p) ex n_ifid (decode_stage q) n r)
unfolding cycle
cycle_lem program p mem n n_ifid q r ex accessed executed fetched = rw (accessed, executed, fetched)

-- The cycle when the hazard unit lets it flow.
pub cycle_flow :
    (program : Program) (p : Pipeline) (mem : DataMemory) (n n_idex n_ifid : Latch) (q r : Pipeline)
    (ex : Execution) (fetches : Bool)
    → access p.exmem p.mem ≡ ok (mem, n)
    → execute (in_ex program p mem) ≡ (q, ex)
    → detect_stall p ≡ false
    → will_fetch program p ≡ fetches
    → decode_stage q ≡ n_idex
    → fetch_into program q ≡ ok (r, n_ifid)
    → cycle program p ≡ ok (commit false fetches ex n_ifid n_idex n r)
cycle_flow program p mem n n_idex n_ifid q r ex fetches accessed executed flow wf decoded fetched =
    cycle_lem program p mem n n_ifid q r ex accessed executed (if-false _ _ flow ∙ fetched) ∙ λ i.
    ok (commit (flow i) (wf i) ex n_ifid (decoded i) n r)

-- The cycle when it stalls.
pub cycle_stall :
    (program : Program) (p : Pipeline) (mem : DataMemory) (n : Latch) (q : Pipeline)
    (ex : Execution)
    → access p.exmem p.mem ≡ ok (mem, n)
    → execute (in_ex program p mem) ≡ (q, ex)
    → detect_stall p ≡ true
    → cycle program p ≡ ok (commit true false ex empty_latch (decode_stage q) n q)
cycle_stall program p mem n q ex accessed executed stall =
    let none_fetched : will_fetch program p ≡ false = ground arith in
    cycle_lem program p mem n empty_latch q q ex accessed executed (if-true _ _ stall) ∙ λ i.
    ok (commit (stall i) (none_fetched i) ex empty_latch (decode_stage q) n q)

pub execute_idle : (q : Pipeline) → q.idex.bubble ≡ true → execute q ≡ (q, quiet empty_latch)
unfolding execute
execute_idle q h = if-true _ _ h

-- The counters after EX has worked on an instruction.
abbrev pub counted : Pipeline → Pipeline
counted q = record q {
  stats = record (q.stats) {
    retired = q.stats.retired + 1;
    forwards =
        count_forward (forwarded q q.idex.ctrl.b_reg)
          (count_forward (forwarded q q.idex.ctrl.a_reg) q.stats.forwards);
  };
}

pub execute_real :
    (q : Pipeline)
    → q.idex.bubble ≡ false
    → execute q ≡ (
      counted q,
      execute_latch q.idex
          (operand (forwarded q q.idex.ctrl.a_reg) q.idex.a_val)
          (operand (forwarded q q.idex.ctrl.b_reg) q.idex.b_val),
    )
unfolding execute forwarded
execute_real q h = if-false _ _ h

pub decode_stage_idle : (q : Pipeline) → q.ifid.bubble ≡ true → decode_stage q ≡ empty_latch
unfolding decode_stage
decode_stage_idle q h = if-true _ _ h

-- What ID makes of the latch before it.
abbrev pub entered : Pipeline → Latch
entered q = record empty_latch {
  bubble = false;
  id = q.ifid.id;
  inst = q.ifid.inst;
  pc = q.ifid.pc;
  ctrl = make_control q.ifid.inst;
  a_val = port q.regs (make_control q.ifid.inst).a_reg;
  b_val = port q.regs (make_control q.ifid.inst).b_reg;
}

pub decode_stage_real : (q : Pipeline) → q.ifid.bubble ≡ false → decode_stage q ≡ entered q
unfolding decode_stage
decode_stage_real q h = if-false _ _ h

abbrev pub traced_entry : Program → Pipeline → Instruction → TracedInstr
traced_entry program q inst = record {
  pc = q.pc;
  source_line = get_or program.source_lines (q.pc / 4) 0;
  text = disassemble inst;
}

pub fetch_in_range :
    (program : Program) (q : Pipeline) (inst : Instruction)
    → q.fetch_stopped ≡ false
    → q.pc < code_bytes program
    → decode (word_at program q.pc) ≡ ok inst
    → fetch_into program q
      ≡ ok (
        record q { traced = q.traced ++ traced_entry program q inst ∷ []; next_id = q.next_id + 1 },
        record empty_latch { bubble = false; id = pos q.next_id; inst = inst; pc = q.pc },
      )
unfolding fetch_into
fetch_in_range program q inst on lt e =
    let open_now : (q.fetch_stopped || not (ltb q.pc (code_bytes program))) ≡ false =
      ground arith in
    if-false _ _ open_now ∙ rw e

pub fetch_past_end :
    (program : Program) (q : Pipeline)
    → code_bytes program ≤ q.pc
    → fetch_into program q ≡ ok (q, empty_latch)
unfolding fetch_into
fetch_past_end program q le =
    let shut_now : (q.fetch_stopped || not (ltb q.pc (code_bytes program))) ≡ true = ground arith in
    if-true _ _ shut_now

pub fetch_off :
    (program : Program) (q : Pipeline)
    → q.fetch_stopped ≡ true
    → fetch_into program q ≡ ok (q, empty_latch)
unfolding fetch_into
fetch_off program q off =
    let shut_now : (q.fetch_stopped || not (ltb q.pc (code_bytes program))) ≡ true = rw off in
    if-true _ _ shut_now
