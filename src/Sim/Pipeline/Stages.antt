-- ===== src/Sim/Pipeline/Stages.antt =====
-- The stages of one cycle, and the hazard unit: src/sim/pipeline.cpp.
use pipeline_lab.Prelude.{
  ℕ, ◌+◌, ◌/◌, List, [], ◌∷◌, ◌++◌, get_or, Bool, true, false, not, ◌&&◌, ◌||◌, ltb, ◌==◌,
  if◌then◌else◌, Option, none, some, Result, ok, ◌>>=◌,
}
use pipeline_lab.Prelude.Int.{ℤ, pos, ◌+ℤ◌}
use pipeline_lab.Words.{u32, signed, to_word}
use pipeline_lab.Isa.Encoding.{decode}
use pipeline_lab.Isa.Disassemble.{disassemble}
use pipeline_lab.Asm.Program.{Program, instruction_bytes, code_bytes}
use pipeline_lab.Sim.Fault.{Fault, or_fault}
use pipeline_lab.Sim.RegisterFile.{RegisterFile, read, write}
use pipeline_lab.Sim.Memory.{DataMemory, load_word, store_word}
use pipeline_lab.Sim.Alu.{alu_result, branch_taken}
use pipeline_lab.Sim.Pipeline.State.{
  Stage, if_stage, id_stage, ex_stage, mem_stage, wb_stage, no_reg, reads_reg, Control,
  make_control, Latch, empty_latch, TraceEvent, TracedInstr, Pipeline,
}

unfoldable pub add_offset : ℕ → ℕ → ℕ
unfolding ◌+ℤ◌
add_offset base offset = to_word (pos base +ℤ signed offset)

-- The value that `forwardValue` delivers, if it forwards: from EX/MEM first, unless that holds a
-- load, then from MEM/WB.
unfoldable pub forwarded : Pipeline → ℕ → Option ℕ
unfolding reads_reg
forwarded p reg =
    let m = p.exmem in
    let w = p.memwb in
    if not p.forwarding || not (reads_reg reg)
    then none
    else if not m.bubble
        && m.ctrl.reg_write
        && not (m.ctrl.dest_reg == 0)
        && not m.ctrl.mem_read
        && m.ctrl.dest_reg == reg
    then some m.alu_result
    else if not w.bubble && w.ctrl.reg_write && not (w.ctrl.dest_reg == 0) && w.ctrl.dest_reg == reg
    then some w.write_data
    else none

abbrev pub operand : Option ℕ → ℕ → ℕ
operand (some value) fallback = value
operand none fallback = fallback

abbrev pub count_forward : Option ℕ → ℕ → ℕ
count_forward (some value) forwards = forwards + 1
count_forward none forwards = forwards

-- The pipeline with its count of forwards, and the operand.
unfoldable pub forward_value : Pipeline → ℕ → ℕ → Pipeline × ℕ
forward_value p reg fallback =
    let found = forwarded p reg in
    (
      record p { stats = record (p.stats) { forwards = count_forward found p.stats.forwards } },
      operand found fallback,
    )

-- The lambda `conflicts` of `detectStall`.
unfoldable pub conflicts : Control → Latch → Bool
unfolding reads_reg
conflicts cc producer =
    let d = producer.ctrl.dest_reg in
    if producer.bubble || not producer.ctrl.reg_write || d == 0
    then false
    else (reads_reg cc.a_reg && cc.a_reg == d) || (reads_reg cc.b_reg && cc.b_reg == d)

unfoldable pub detect_stall : Pipeline → Bool
unfolding conflicts
detect_stall p =
    let cc = make_control p.ifid.inst in
    if p.ifid.bubble
    then false
    else if p.forwarding
    then not p.idex.bubble && p.idex.ctrl.mem_read && conflicts cc p.idex
    else conflicts cc p.idex || conflicts cc p.exmem

-- The registers after the write-back of a latch.
unfoldable pub written : Latch → RegisterFile → RegisterFile
written l regs =
    if not l.bubble && l.ctrl.reg_write then write regs l.ctrl.dest_reg l.write_data else regs

unfoldable pub write_back : Pipeline → Pipeline
unfolding written
write_back p = record p { regs = written p.memwb p.regs }

-- The memory access of a latch: the memory after it, and the latch that goes on to WB.
unfoldable pub access : Latch → DataMemory → Result Fault (DataMemory × Latch)
access l mem = if l.bubble then ok (mem, empty_latch) else do
  value ← if l.ctrl.mem_read then load_word mem l.alu_result else ok l.alu_result
  mem' ← if l.ctrl.mem_write then store_word mem l.alu_result l.store_data else ok mem
  ok (mem', record l { write_data = value })

unfoldable pub memory_stage : Pipeline → Result Fault (Pipeline × Latch)
unfolding access
memory_stage p = do (mem, next) ← access p.exmem p.mem; ok (record p { mem = mem }, next)

-- The outputs of `execute`.
pub record Execution : Type 0 where
  pub next : Latch
  pub flush_younger : Bool
  pub count_flush : Bool
  pub stop_fetch : Bool
  pub new_pc : ℕ

-- `bool flushYounger = false, countFlush = false, stopFetch = false; newPc = 0`.
abbrev pub quiet : Latch → Execution
quiet next = record {
  next = next;
  flush_younger = false;
  count_flush = false;
  stop_fetch = false;
  new_pc = 0;
}

-- The work of EX on a real instruction whose operands are `a` and `b`.
unfoldable pub execute_latch : Latch → ℕ → ℕ → Execution
unfolding add_offset ◌+ℤ◌
execute_latch l a b =
    let c = l.ctrl in
    let next = record l { bubble = false } in
    if c.is_ret
    then record (quiet next) { flush_younger = true; stop_fetch = true }
    else if c.is_jump
    then record (quiet
        (record next { alu_result = if c.is_jal then u32 (l.pc + 4) else l.alu_result })) {
          flush_younger = true;
          count_flush = true;
          new_pc = l.inst.target;
        }
    else if c.is_branch
    then (if branch_taken l.inst.op a b
        then record (quiet next) {
          flush_younger = true;
          count_flush = true;
          new_pc = add_offset l.pc l.inst.imm;
        }
        else quiet next)
    else if c.mem_read || c.mem_write
    then quiet
        (record next { alu_result = to_word (signed a +ℤ signed l.inst.imm); store_data = b })
    else quiet (record next {
      alu_result = alu_result l.inst.op a (if c.alu_uses_imm then l.inst.imm else b);
    })

unfoldable pub execute : Pipeline → Pipeline × Execution
unfolding forward_value execute_latch
execute p =
    if p.idex.bubble
    then (p, quiet empty_latch)
    else let retiring = record p { stats = record (p.stats) { retired = p.stats.retired + 1 } } in
      let (p', a) = forward_value retiring p.idex.ctrl.a_reg p.idex.a_val in
      let (p'', b) = forward_value p' p.idex.ctrl.b_reg p.idex.b_val in
      (p'', execute_latch p.idex a b)

-- A port that reads no register gives 0.
unfoldable pub port : RegisterFile → ℕ → ℕ
port regs reg = if reg == no_reg then 0 else read regs reg

unfoldable pub decode_stage : Pipeline → Latch
unfolding port
decode_stage p =
    let ctrl = make_control p.ifid.inst in
    if p.ifid.bubble then empty_latch else record empty_latch {
      bubble = false;
      id = p.ifid.id;
      inst = p.ifid.inst;
      pc = p.ifid.pc;
      ctrl = ctrl;
      a_val = port p.regs ctrl.a_reg;
      b_val = port p.regs ctrl.b_reg;
    }

unfoldable pub fetch_into : Program → Pipeline → Result Fault (Pipeline × Latch)
fetch_into program p =
    if p.fetch_stopped || not (ltb p.pc (code_bytes program))
    then ok (p, empty_latch)
    else let index = p.pc / instruction_bytes in
      do
        inst ← or_fault (decode (get_or program.words index 0))
        let traced : TracedInstr = record {
          pc = p.pc;
          source_line = get_or program.source_lines index 0;
          text = disassemble inst;
        }
        ok (
          record p { traced = p.traced ++ traced ∷ []; next_id = p.next_id + 1 },
          record empty_latch { bubble = false; id = pos p.next_id; inst = inst; pc = p.pc },
        )

-- The event of a stage, if the latch before it holds an instruction.
abbrev pub event : Latch → ℕ → Stage → List TraceEvent
event l cycle stage =
    if l.bubble then [] else record { id = l.id; cycle = cycle; stage = stage } ∷ []

unfoldable pub record_stages : Bool → ℤ → Pipeline → Pipeline
record_stages fetching fetch_id p =
    let fetch =
      if fetching then record { id = fetch_id; cycle = p.cycle; stage = if_stage } ∷ [] else [] in
    record p {
      trace =
          p.trace
          ++ fetch
          ++ event p.ifid p.cycle id_stage
          ++ event p.idex p.cycle ex_stage
          ++ event p.exmem p.cycle mem_stage
          ++ event p.memwb p.cycle wb_stage;
    }
