-- ===== src/Sim/Tests.antt =====
-- Runs of the simulators of src/sim on small programs, and the theorems about them at these runs.
mod Parts
mod Outcomes
use pipeline_lab.Prelude.{
  ℕ, ◌+◌, ◌*◌, ◌≡◌, refl, arith, List, [], ◌∷◌, Bool, true, false, Result, ok, err, ◌<◌, All, ◌>>=◌,
  passes_upto,
}
use pipeline_lab.Isa.Opcode.{
  opcode_value, opcode_cast, format_of, is_load, is_store, is_ret, is_jal,
}
use pipeline_lab.Isa.Encoding.{decode, sign_extend}
use pipeline_lab.Isa.Disassemble.{disassemble, mnemonic_of}
use pipeline_lab.Asm.Program.{Program, code_bytes}
use pipeline_lab.Sim.Fault.{Fault, step_limit}
use pipeline_lab.Sim.RegisterFile.{RegisterFile, read, write}
use pipeline_lab.Sim.Memory.{load_word, store_word, check_access}
use pipeline_lab.Sim.Alu.{alu_result, branch_taken}
use pipeline_lab.Sim.Interpreter
use pipeline_lab.Sim.Interpreter.{Interpreter, new_interpreter}
use pipeline_lab.Sim.Interpreter.Runs.{run_steps}
use pipeline_lab.Sim.Interpreter.Typing.{IsTyped, run-IsTyped, new_interpreter-IsTyped}
use pipeline_lab.Sim.Pipeline.State.{Pipeline, PipelineStats, new_pipeline, make_control}
use pipeline_lab.Sim.Pipeline.Stages.{forwarded, execute, detect_stall, decode_stage, fetch_into}
use pipeline_lab.Sim.Pipeline.Cycle.{run, cycle, drained}
use pipeline_lab.Sim.Pipeline.Fetching.{Decodes, Decodes-AllDecode}
use pipeline_lab.Sim.Pipeline.Separation.{Separated, control_at, passes_upto-Separated}
use pipeline_lab.Sim.Pipeline.Correct.{run-Halts, run-Halts_stalling}

abbrev image : List ℕ → Program
image words = record { words = words; instructions = []; source_lines = []; symbols = [] }

-- examples/array_sum.asm.
abbrev array_sum : Program
array_sum = image (
    541065226 ∷ 943718400 ∷ 541065236 ∷ 943718404 ∷ 541065246 ∷ 943718408 ∷ 557842432 ∷ 562036736
    ∷ 566231052 ∷ 882376704 ∷ 22315008 ∷ 563609604 ∷ 1168113652 ∷ 1342177280 ∷ [])

array_sum-Decodes : All Decodes array_sum.words
unfolding decode opcode_value opcode_cast format_of sign_extend
array_sum-Decodes = (
  (_, refl),
  (
    (_, refl),
    (
      (_, refl),
      (
        (_, refl),
        (
          (_, refl),
          (
            (_, refl),
            (
              (_, refl),
              (
                (_, refl),
                ((_, refl), ((_, refl), ((_, refl), ((_, refl), ((_, refl), ((_, refl), tt)))))),
              ),
            ),
          ),
        ),
      ),
    ),
  ),
)

abbrev sum_registers : RegisterFile
sum_registers = record {
  regs = 0 ∷ 30 ∷ 30 ∷ 0 ∷ 0 ∷ 60 ∷ 12 ∷ 12 ∷ 0 ∷ 0 ∷ 0 ∷ 0 ∷ 0 ∷ 0 ∷ 0 ∷ 0 ∷ [];
}

abbrev array_sum_end : Interpreter
array_sum_end = record {
  regs = sum_registers;
  mem = record { words = 10 ∷ 20 ∷ 30 ∷ 0 ∷ []; size_bytes = 16 };
  pc = 52;
  retired = 22;
}

-- What an interpreter computes with.
abbrev interpret : ℕ → Program → Interpreter → Result Fault Interpreter
unfolding Interpreter.run Interpreter.step Interpreter.execute_format code_bytes decode opcode_value
    opcode_cast format_of sign_extend is_load is_store is_ret is_jal load_word store_word
    check_access alu_result branch_taken read write Interpreter.add_offset
interpret = Interpreter.run

array_sum_interpreted : Interpreter.run 100 array_sum (new_interpreter 16) ≡ ok array_sum_end
unfolding interpret new_interpreter
array_sum_interpreted = refl

run-Halts_example :
    (final : Pipeline) × (run 68 array_sum (new_pipeline 16 true) ≡ ok final)
    × (final.regs ≡ sum_registers)
    × (final.mem ≡ array_sum_end.mem)
    × (final.stats.retired ≡ 22)
    × (final.stats.cycles
        ≡ final.stats.retired + final.stats.stall_cycles + 2 * final.stats.flushes + 4)
run-Halts_example =
    run-Halts array_sum 16 100 68 array_sum_end (Decodes-AllDecode array_sum array_sum-Decodes)
      array_sum_interpreted (omega arith)

array_sum-Separated : Separated array_sum
unfolding control_at code_bytes decode opcode_value opcode_cast format_of sign_extend is_load
    is_store is_ret is_jal make_control passes_upto
array_sum-Separated = passes_upto-Separated array_sum 56 (omega arith) refl

run-Halts_stalling_example :
    (final : Pipeline) × (run 68 array_sum (new_pipeline 16 false) ≡ ok final)
    × (final.regs ≡ sum_registers)
    × (final.mem ≡ array_sum_end.mem)
    × (final.stats.retired ≡ 22)
    × (final.stats.cycles
        ≡ final.stats.retired + final.stats.stall_cycles + 2 * final.stats.flushes + 4)
run-Halts_stalling_example =
    run-Halts_stalling array_sum 16 100 68 array_sum_end
      (Decodes-AllDecode array_sum array_sum-Decodes) array_sum-Separated array_sum_interpreted
      (omega arith)

-- README.md, "Benchmarks": 33 cycles, 3 stalls and 10 forwards with forwarding, 49 cycles and 19
-- stalls without.
counts : PipelineStats → List ℕ
counts s = s.cycles ∷ s.stall_cycles ∷ s.forwards ∷ s.flushes ∷ s.retired ∷ []

counts_of : Bool → Result Fault (List ℕ)
unfolding run cycle drained code_bytes decode opcode_value opcode_cast format_of sign_extend is_load
    is_store is_ret is_jal load_word store_word check_access alu_result branch_taken read write
    execute detect_stall decode_stage fetch_into disassemble mnemonic_of make_control counts
    new_pipeline
counts_of forwarding = run 100 array_sum (new_pipeline 16 forwarding) >>= λ p. ok (counts p.stats)

array_sum_forwarding : counts_of true ≡ ok (33 ∷ 3 ∷ 10 ∷ 2 ∷ 22 ∷ [])
unfolding counts_of forwarded
array_sum_forwarding = refl

array_sum_stalling : counts_of false ≡ ok (49 ∷ 19 ∷ 0 ∷ 2 ∷ 22 ∷ [])
unfolding counts_of forwarded
array_sum_stalling = refl

abbrev stepped_once : Interpreter
stepped_once = record (new_interpreter 16) {
  regs = write (new_interpreter 16).regs 1 10;
  pc = 4;
  retired = 1;
}

run_steps_example :
    (n : ℕ) × (array_sum_end.retired ≡ 0 + n)
    × (Interpreter.run n array_sum (new_interpreter 16) ≡ ok array_sum_end)
    × ((m : ℕ) → m < n → Interpreter.run m array_sum (new_interpreter 16) ≡ err step_limit)
unfolding new_interpreter
run_steps_example = run_steps array_sum 100 (new_interpreter 16) array_sum_end array_sum_interpreted

-- addi r5, r0, 1; beq r0, r0, +12; add r6, r5, r5; ret; ret. The addition is on the path not taken,
-- and without forwarding it stalls in the cycle in which the branch resolves.
abbrev skipped_reader : Program
skipped_reader = image (557842433 ∷ 1006632972 ∷ 26558464 ∷ 1342177280 ∷ 1342177280 ∷ [])

r6_after : Bool → Result Fault ℕ
unfolding run cycle drained code_bytes decode opcode_value opcode_cast format_of sign_extend is_load
    is_store is_ret is_jal load_word store_word check_access alu_result branch_taken read write
    execute detect_stall decode_stage fetch_into disassemble mnemonic_of make_control new_pipeline
r6_after forwarding =
    run 100 skipped_reader (new_pipeline 16 forwarding) >>= λ p. ok (read p.regs 6)

skipped_forwarding : r6_after true ≡ ok 0
unfolding r6_after forwarded
skipped_forwarding = refl

skipped_stalling : r6_after false ≡ ok 2
unfolding r6_after forwarded
skipped_stalling = refl

run-IsTyped_example : IsTyped 16 array_sum_end
run-IsTyped_example =
    run-IsTyped array_sum 16 100 (new_interpreter 16) array_sum_end
      (new_interpreter-IsTyped 16 (omega arith)) array_sum_interpreted
