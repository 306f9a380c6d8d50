-- ===== src/Sim/Tests/Outcomes.antt =====
-- Programs of src/sim that do not end well, in both simulators.
use pipeline_lab.Prelude.{true-not-false, ◌≡◌, refl, sym, ◌∙◌, arith, [], ◌∷◌, true, err, All}
use pipeline_lab.Isa.Opcode.{
  opcode_value, opcode_cast, format_of, is_load, is_store, is_ret, is_jal,
}
use pipeline_lab.Isa.Encoding.{decode, sign_extend}
use pipeline_lab.Asm.Program.{Program, code_bytes}
use pipeline_lab.Sim.Fault.{unaligned, pc_out_of_range, cycle_limit}
use pipeline_lab.Sim.RegisterFile.{read, write}
use pipeline_lab.Sim.Memory.{load_word, check_access}
use pipeline_lab.Sim.Alu.{alu_result}
use pipeline_lab.Sim.Interpreter
use pipeline_lab.Sim.Interpreter.{Interpreter, new_interpreter}
use pipeline_lab.Sim.Interpreter.Thrown.{ok-not-err}
use pipeline_lab.Sim.Pipeline.State.{new_pipeline}
use pipeline_lab.Sim.Pipeline.Cycle.{run}
use pipeline_lab.Sim.Pipeline.Fetching.{AllDecode, Decodes, Decodes-AllDecode}
use pipeline_lab.Sim.Pipeline.Correct.{run-Halts}
use pipeline_lab.Sim.Pipeline.Faults.{run_throws}
use pipeline_lab.Sim.Pipeline.Endless.{ran_off, run-Unfinished}
use pipeline_lab.Sim.Pipeline.Complete.{Agrees, run-Agrees}
use pipeline_lab.Sim.Tests.{
  image, array_sum, array_sum-Decodes, array_sum_end, array_sum_interpreted,
}

-- addi r1, r0, 5; lw r2, 0(r1); ret.
abbrev odd_load : Program
odd_load = image (541065221 ∷ 881065984 ∷ 1342177280 ∷ [])

odd_load-Decodes : All Decodes odd_load.words
unfolding decode opcode_value opcode_cast format_of sign_extend
odd_load-Decodes = ((_, refl), ((_, refl), ((_, refl), tt)))

odd_load_interpreted : Interpreter.run 3 odd_load (new_interpreter 16) ≡ err (unaligned 5)
unfolding Interpreter.run Interpreter.step Interpreter.execute_format code_bytes decode opcode_value
    opcode_cast format_of sign_extend is_load is_store is_ret is_jal load_word check_access
    alu_result read write Interpreter.add_offset new_interpreter
odd_load_interpreted = refl

run_throws_example : run 11 odd_load (new_pipeline 16 true) ≡ err (unaligned 5)
run_throws_example =
    run_throws odd_load 16 3 11 true (unaligned 5) refl
      (Decodes-AllDecode odd_load odd_load-Decodes) (λ off. absurd (true-not-false off))
      odd_load_interpreted (omega arith)

-- addi r1, r0, 5, and nothing behind it.
abbrev no_ret : Program
no_ret = image (541065221 ∷ [])

no_ret-Decodes : All Decodes no_ret.words
unfolding decode opcode_value opcode_cast format_of sign_extend
no_ret-Decodes = ((_, refl), tt)

no_ret_interpreted : Interpreter.run 3 no_ret (new_interpreter 16) ≡ err (pc_out_of_range 4)
unfolding Interpreter.run Interpreter.step Interpreter.execute_format code_bytes decode opcode_value
    opcode_cast format_of sign_extend is_load is_store is_ret is_jal alu_result read write
    new_interpreter
no_ret_interpreted = refl

run-Unfinished_example : run 50 no_ret (new_pipeline 16 true) ≡ err cycle_limit
run-Unfinished_example =
    run-Unfinished no_ret 16 3 50 true (pc_out_of_range 4) (Decodes-AllDecode no_ret no_ret-Decodes)
      (λ off. absurd (true-not-false off)) no_ret_interpreted (ran_off 4)

array_sum-AllDecode : AllDecode array_sum
array_sum-AllDecode = Decodes-AllDecode array_sum array_sum-Decodes

array_sum_early : ¬ (run 68 array_sum (new_pipeline 16 true) ≡ err cycle_limit)
array_sum_early h =
    let (final, halts, _, _, _, _) =
      run-Halts array_sum 16 100 68 array_sum_end array_sum-AllDecode array_sum_interpreted
        (omega arith) in
    ok-not-err (sym halts ∙ h)

run-Agrees_example : Agrees array_sum 16 68 (run 68 array_sum (new_pipeline 16 true))
run-Agrees_example =
    run-Agrees array_sum 16 68 true array_sum-AllDecode (λ off. absurd (true-not-false off))
      array_sum_early
