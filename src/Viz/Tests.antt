-- ===== src/Viz/Tests.antt =====
-- The diagram and the report of src/viz/trace.cpp on a small run.
use pipeline_lab.Prelude.{List, ◌*◌, ◌≡◌, refl, arith, [], ◌∷◌, true, some, Result, ok, err}
use pipeline_lab.Prelude.Text.{codes}
use pipeline_lab.Isa.Opcode.{
  opcode_value, opcode_cast, format_of, is_load, is_store, is_ret, is_jal,
}
use pipeline_lab.Isa.Encoding.{decode, sign_extend}
use pipeline_lab.Isa.Disassemble.{disassemble, mnemonic_of}
use pipeline_lab.Asm.Program.{Program, Text, code_bytes}
use pipeline_lab.Sim.Fault.{Fault}
use pipeline_lab.Sim.RegisterFile.{read, write}
use pipeline_lab.Sim.Memory.{load_word, store_word, check_access}
use pipeline_lab.Sim.Alu.{alu_result, branch_taken}
use pipeline_lab.Sim.Pipeline.State.{PipelineStats, no_stats, Pipeline, new_pipeline, make_control}
use pipeline_lab.Sim.Pipeline.Stages.{forwarded, execute, detect_stall, decode_stage, fetch_into}
use pipeline_lab.Sim.Pipeline.Cycle.{run, cycle, drained}
use pipeline_lab.Sim.Pipeline.Trace.Recorded.{IsTraced, cycle-IsTraced, new_pipeline-IsTraced}
use pipeline_lab.Viz.Diagram.{render_pipeline_diagram, mark}
use pipeline_lab.Viz.Diagram.Cells.{Diagram, run-Diagram}
use pipeline_lab.Prelude.Text.{decimal}
use pipeline_lab.Viz.Diagram.Table.{IsLine, AreRows, join_lines, render-AreRows}
use pipeline_lab.Viz.Report.{quotient, fixed_text, thousandths, cpi, ipc}
use pipeline_lab.Viz.Report.Accuracy.{Within, thousandths-Within}

-- README.md, "Benchmarks" and "Example output": 33 cycles for 22 instructions and 30 for 18.
cpi_array_sum : fixed_text (quotient 33 22) ≡ codes "1.500"
unfolding fixed_text quotient
cpi_array_sum = refl

cpi_sum_loop : fixed_text (quotient 30 18) ≡ codes "1.667"
unfolding fixed_text quotient
cpi_sum_loop = refl

ipc_sum_loop : fixed_text (quotient 18 30) ≡ codes "0.600"
unfolding fixed_text quotient
ipc_sum_loop = refl

-- addi r1, r0, 10; ret.
abbrev two_instructions : Program
two_instructions = record {
  words = 541065226 ∷ 1342177280 ∷ [];
  instructions = [];
  source_lines = [];
  symbols = [];
}

abbrev or_reset : Result Fault Pipeline → Pipeline
or_reset (ok p) = p
or_reset (err _) = new_pipeline 16 true

unfoldable ended : Pipeline
unfolding run cycle drained code_bytes decode opcode_value opcode_cast format_of sign_extend is_load
    is_store is_ret is_jal load_word store_word check_access alu_result branch_taken read write
    execute detect_stall decode_stage fetch_into disassemble mnemonic_of make_control new_pipeline
    forwarded
ended = or_reset (run 20 two_instructions (new_pipeline 16 true))

two_instructions_end : run 20 two_instructions (new_pipeline 16 true) ≡ ok ended
unfolding ended
two_instructions_end = refl

run-Diagram_example : Diagram ended
run-Diagram_example = run-Diagram two_instructions 16 20 true ended two_instructions_end

unfoldable first_cycle : Pipeline
unfolding run cycle drained code_bytes decode opcode_value opcode_cast format_of sign_extend is_load
    is_store is_ret is_jal load_word store_word check_access alu_result branch_taken read write
    execute detect_stall decode_stage fetch_into disassemble mnemonic_of make_control new_pipeline
    forwarded
first_cycle = or_reset (cycle two_instructions (new_pipeline 16 true))

two_instructions_first : cycle two_instructions (new_pipeline 16 true) ≡ ok first_cycle
unfolding first_cycle
two_instructions_first = refl

cycle-IsTraced_example : IsTraced first_cycle
cycle-IsTraced_example =
    cycle-IsTraced two_instructions (new_pipeline 16 true) first_cycle
      (new_pipeline-IsTraced 16 true) two_instructions_first

six_cycles : ended.stats.cycles ≡ 6
unfolding ended
six_cycles = refl

render-AreRows_example :
    (header : Text) × (rows : List Text) × (render_pipeline_diagram ended
      ≡ some (join_lines (header ∷ rows)))
    × IsLine ended.stats.cycles (codes "addr  instruction") (λ c. b'c' ∷ decimal c) header
    × AreRows ended 0 ended.traced rows
render-AreRows_example =
    render-AreRows two_instructions 16 20 true ended two_instructions_end
      (rw six_cycles (omega arith))

diagram_text :
    render_pipeline_diagram ended
    ≡ some (
        codes
          "addr  instruction             c1  c2  c3  c4  c5  c6\n0x0000  addi r1, r0, 10       IF  ID  EX MEM  WB   .\n0x0004  ret                    .  IF  ID  EX MEM  WB\n")
unfolding ended render_pipeline_diagram mark
diagram_text = refl

-- 30 cycles for 18 instructions, as in README.md.
abbrev sum_loop_stats : PipelineStats
sum_loop_stats = record no_stats { cycles = 30; retired = 18 }

thousandths-Within_example :
    Within 18 (thousandths (cpi sum_loop_stats) * 18) (1000 * 30)
    × Within 30 (thousandths (ipc sum_loop_stats) * 30) (1000 * 18)
thousandths-Within_example =
    thousandths-Within sum_loop_stats (omega arith) (omega arith) (omega arith) (omega arith)
