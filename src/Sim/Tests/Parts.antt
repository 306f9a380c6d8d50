-- ===== src/Sim/Tests/Parts.antt =====
-- The register file, the memory, single instructions and the hazard unit of src/sim at concrete
-- values.
use pipeline_lab.Prelude.{ℕ, ◌/◌, ◌<◌, ◌≡◌, ◌≢◌, refl, arith, [], ◌∷◌, true, false, ok, err, ◌↔◌}
use pipeline_lab.Prelude.Int.{pos}
use pipeline_lab.Isa.Opcode.{add, addi, jal, format_of, is_load, is_store, is_ret, is_jal}
use pipeline_lab.Isa.Instruction.{Instruction, blank}
use pipeline_lab.Asm.Program.{Program, code_bytes}
use pipeline_lab.Sim.Fault.{outside_storage}
use pipeline_lab.Sim.RegisterFile.{
  IsRegisterFile, initial_registers, initial_registers-IsRegisterFile, read, write,
}
use pipeline_lab.Sim.Memory.{DataMemory, new_memory, load_word, store_word, check_access}
use pipeline_lab.Sim.Memory.Laws.{
  IsMemory, new_memory-IsMemory, load_word-wrapped, store_word-load_word,
}
use pipeline_lab.Sim.Alu.{alu_result}
use pipeline_lab.Sim.Interpreter.{Interpreter, running, execute_format}
use pipeline_lab.Sim.Interpreter.{returned}
use pipeline_lab.Isa.Opcode.{ret}
use pipeline_lab.Sim.Interpreter.Meaning.{Means, execute_format-Means_iff}
use pipeline_lab.Sim.Bounds.{AreWords}
use pipeline_lab.Sim.Pipeline.State.{
  Pipeline, Latch, empty_latch, new_pipeline, make_control, reads_reg, id_stage, ex_stage,
}
use pipeline_lab.Sim.Pipeline.Stages.{
  forwarded, operand, port, written, access, detect_stall, execute, execute_latch, conflicts,
}
use pipeline_lab.Sim.Pipeline.Cycle.{cycle}
use pipeline_lab.Sim.Pipeline.Forwarding.{operand-forwarded}
use pipeline_lab.Sim.Pipeline.Hazards.{cycle_stalled}

sixteen_zeros : IsRegisterFile initial_registers
sixteen_zeros = initial_registers-IsRegisterFile

abbrev two_words : DataMemory
two_words = record { words = 5 ∷ 6 ∷ []; size_bytes = 8 }

two_words-IsMemory : IsMemory two_words
two_words-IsMemory = (refl, omega arith)

ten_bytes-IsMemory : IsMemory (new_memory 10)
ten_bytes-IsMemory = new_memory-IsMemory 10 (omega arith)

load_word-wrapped_example : load_word two_words 4294967292 ≡ err (outside_storage 4294967292)
load_word-wrapped_example = load_word-wrapped two_words two_words-IsMemory

abbrev stored_words : DataMemory
stored_words = record { words = 5 ∷ 9 ∷ []; size_bytes = 8 }

nine_stored : store_word two_words 4 9 ≡ ok stored_words
unfolding store_word check_access
nine_stored = refl

store_word-load_word_example :
    IsMemory stored_words
    × (load_word stored_words 4 ≡ ok 9)
    × ((other : ℕ) → other / 4 ≢ 4 / 4 → load_word stored_words other ≡ load_word two_words other)
store_word-load_word_example =
    store_word-load_word two_words stored_words 4 9 two_words-IsMemory nine_stored

-- addi r5, r0, 1
abbrev set_five : Instruction
set_five = record (blank addi) { rd = 5; imm = 1 }

abbrev start : Interpreter
start = record { regs = initial_registers; mem = two_words; pc = 0; retired = 0 }

abbrev after_set : Interpreter
after_set = record start {
  regs = write initial_registers 5 (alu_result addi (read initial_registers 0) 1);
  pc = 4;
}

start_words : AreWords start.regs start.mem
unfolding initial_registers
start_words = record { regs_words = omega arith; mem_words = omega arith }

execute_format-Means_iff_example :
    ((execute_format (format_of addi) set_five start ≡ ok (running after_set))
      ↔ Means set_five start addi after_set)
    × ((execute_format (format_of addi) set_five start ≡ ok (returned after_set))
        ↔ ((addi ≡ ret) × (after_set ≡ start)))
execute_format-Means_iff_example =
    execute_format-Means_iff set_five start after_set start_words (omega arith) (omega arith)

-- jal 12, in EX, and add r6, r15, r15, in ID.
abbrev call : Instruction
call = record (blank jal) { target = 12 }

abbrev call_latch : Latch
unfolding make_control format_of is_ret is_jal
call_latch = record empty_latch {
  bubble = false;
  id = pos 0;
  inst = call;
  ctrl = make_control call;
}

abbrev reader : Instruction
reader = record (blank add) { rd = 6; rs = 15; rt = 15 }

abbrev reader_latch : Latch
reader_latch = record empty_latch { bubble = false; id = pos 1; inst = reader; pc = 4 }

-- The call in EX and the reader in ID, forwarding off.
abbrev colliding : Pipeline
unfolding new_pipeline
colliding = record (new_pipeline 0 false) {
  idex = call_latch;
  ifid = reader_latch;
  pc = 8;
  next_id = 2;
}

abbrev no_code : Program
no_code = record { words = []; instructions = []; source_lines = []; symbols = [] }

colliding_stalls : detect_stall colliding ≡ true
unfolding detect_stall make_control conflicts reads_reg format_of is_ret is_jal colliding
colliding_stalls = refl

abbrev after_collision : Pipeline
unfolding make_control new_pipeline format_of is_ret is_jal
after_collision = record colliding {
  ifid = reader_latch;
  idex = empty_latch;
  exmem = record call_latch { alu_result = 4 };
  cycle = 1;
  stats = record (colliding.stats) { cycles = 1; retired = 1; stall_cycles = 1 };
  trace =
      record { id = pos 1; cycle = 1; stage = id_stage }
      ∷ record { id = pos 0; cycle = 1; stage = ex_stage }
      ∷ [];
}

collision : cycle no_code colliding ≡ ok after_collision
unfolding cycle detect_stall make_control conflicts reads_reg format_of is_ret is_jal new_pipeline
    code_bytes initial_registers new_memory forwarded execute_latch access written port read execute
collision = refl

cycle_stalled_example :
    (after_collision.pc ≡ 8)
    × (after_collision.ifid ≡ reader_latch)
    × (after_collision.idex ≡ empty_latch)
    × (after_collision.fetch_stopped ≡ false)
    × (after_collision.stats.flushes ≡ 0)
    × (after_collision.stats.stall_cycles ≡ 1)
unfolding new_pipeline
cycle_stalled_example = cycle_stalled no_code colliding after_collision colliding_stalls collision

-- addi r5, r0, 1 in EX/MEM, with its result.
abbrev producer : Latch
unfolding make_control format_of is_load is_store
producer = record empty_latch {
  bubble = false;
  inst = set_five;
  ctrl = make_control set_five;
  alu_result = 1;
}

abbrev forwarding_five : Pipeline
unfolding new_pipeline
forwarding_five = record (new_pipeline 0 true) { exmem = producer }

five_accessed :
    access forwarding_five.exmem forwarding_five.mem
    ≡ ok (forwarding_five.mem, record producer { write_data = 1 })
unfolding access make_control format_of is_load is_store new_pipeline
five_accessed = refl

producer_dest : producer.ctrl.dest_reg < 16
unfolding make_control format_of is_load is_store
producer_dest = omega arith

operand-forwarded_example :
    operand (forwarded forwarding_five 5) (port forwarding_five.regs 5)
    ≡ port (written (record producer { write_data = 1 }) (written empty_latch initial_registers)) 5
unfolding make_control format_of is_load is_store new_pipeline
operand-forwarded_example =
    operand-forwarded forwarding_five 5 forwarding_five.mem _ refl sixteen_zeros (omega arith)
      producer_dest five_accessed refl
