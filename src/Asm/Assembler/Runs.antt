-- ===== src/Asm/Assembler/Runs.antt =====
-- The assembler of src/asm/assembler.cpp and the simulators of src/sim together.
use pipeline_lab.Prelude.{ℕ, ◌+◌, ◌*◌, ◌≤◌, ◌≡◌, List, true, ok}
use pipeline_lab.Sim.Interpreter
use pipeline_lab.Sim.Interpreter.{Interpreter, new_interpreter}
use pipeline_lab.Sim.Pipeline.State.{Pipeline, new_pipeline}
use pipeline_lab.Sim.Pipeline.Cycle.{run}
use pipeline_lab.Sim.Pipeline.Fetching.{Decodes-AllDecode}
use pipeline_lab.Sim.Pipeline.Correct.{run-Halts}
use pipeline_lab.Asm.Program.{Program}
use pipeline_lab.Asm.Statement.{Statement}
use pipeline_lab.Asm.Assembler.{assemble}
use pipeline_lab.Asm.Assembler.Code.{assemble-Encodes, Encodes-Decodes}

-- The pipeline with forwarding runs every assembled program as the interpreter does: if the
-- interpreter ends in the state `end`, the pipeline drains within any limit of at least three cycles
-- for each instruction and two more, with the registers, the memory and the number of instructions
-- of `end`.
pub assembled_run-Halts :
    (statements : List Statement) (program : Program) (bytes max_steps max_cycles : ℕ)
    (end : Interpreter)
    → assemble statements ≡ ok program
    → Interpreter.run max_steps program (new_interpreter bytes) ≡ ok end
    → 3 * end.retired + 2 ≤ max_cycles
    → (final : Pipeline) × (run max_cycles program (new_pipeline bytes true) ≡ ok final)
      × (final.regs ≡ end.regs)
      × (final.mem ≡ end.mem)
      × (final.stats.retired ≡ end.retired)
assembled_run-Halts statements program bytes max_steps max_cycles end assembled h enough =
    let words = Encodes-Decodes (assemble-Encodes statements program assembled).0 in
    let (final, halts, regs, mem, retired, _) =
      run-Halts program bytes max_steps max_cycles end (Decodes-AllDecode program words) h enough in
    (final, halts, regs, mem, retired)
