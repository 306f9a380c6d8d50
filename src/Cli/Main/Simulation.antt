-- ===== src/Cli/Main/Simulation.antt =====
-- src/main.cpp with the pipeline alone: what it prints is what the interpreter computes.
use pipeline_lab.Prelude.{
  ◌≡◌, ◌≢◌, refl, sym, ap, ◌∙◌, arith, List, [], true, false, Option, some, Result, ok, err,
}
use mathlib.Core.Path.{subst}
use mathlib.Core.List.{append-nil}
use pipeline_lab.Asm.Program.{Program, Text}
use pipeline_lab.Asm.Source.{assemble_source}
use pipeline_lab.Sim.Fault.{Fault}
use pipeline_lab.Sim.Memory.{DataMemory}
use pipeline_lab.Sim.Memory.Laws.{IsMemory}
use pipeline_lab.Sim.Interpreter
use pipeline_lab.Sim.Interpreter.{Interpreter, new_interpreter}
use pipeline_lab.Sim.Interpreter.Thrown.{ok-not-err}
use pipeline_lab.Sim.Interpreter.Typing.{run-IsTyped, new_interpreter-IsTyped}
use pipeline_lab.Sim.Pipeline.State.{Pipeline, new_pipeline}
use pipeline_lab.Sim.Pipeline.Cycle.{run}
use pipeline_lab.Sim.Pipeline.Fetching.{AllDecode}
use pipeline_lab.Sim.Pipeline.Refinement.{Paced}
use pipeline_lab.Sim.Pipeline.Separation.{Separated}
use pipeline_lab.Sim.Pipeline.Complete.{run-Agrees, Agrees-ok}
use pipeline_lab.Viz.Diagram.Cells.{run-Diagram}
use pipeline_lab.Cli.Options.{Options, initial_options, options, parse_args, default_mode}
use pipeline_lab.Cli.Output.{
  Output, print, and_then, in_order, pipeline_report, run_pipeline, run_interpreter, run_modes,
  when, after, default_limit, default_bytes,
}
use pipeline_lab.Cli.Main.{Process, finished, main}
use pipeline_lab.Cli.Main.Success.{
  run_source-ok, run_options-some, main-options, finished-some, other_code,
}
use pipeline_lab.Cli.Main.Quiet.{Quiet, pipeline_report-Quiet, assemble_source-AllDecode}
use pipeline_lab.Cli.Main.Agreement.{and_then_lem, run_pipeline_lem, finished-print}

-- Without --interp, it is the pipeline that runs.
default_mode-pipeline :
    (opts : Options)
    → opts.run_interp ≡ false
    → ((default_mode opts).run_interp ≡ false)
      × ((default_mode opts).run_pipeline ≡ true)
      × ((default_mode opts).forwarding ≡ opts.forwarding)
unfolding default_mode
default_mode-pipeline opts h = ground arith

module _ (opts : Options) (program : Program) (interp : opts.run_interp ≡ false)
    (pipe : opts.run_pipeline ≡ true) where
  pipeline_mode : run_modes opts program ≡ and_then (run_pipeline opts program) (print [])
  unfolding run_modes in_order
  pipeline_mode i =
      and_then (when (interp i) (run_interpreter opts program))
        (and_then (when (pipe i) (run_pipeline opts program)) (print []))

  pipeline_mode-Quiet :
      Quiet (run_pipeline opts program)
      → run_modes opts program ≡ print (run_pipeline opts program).text
  pipeline_mode-Quiet q =
      pipeline_mode
      ∙ and_then_lem _ (print []) q
      ∙ ap print (append-nil (run_pipeline opts program).text)

  -- An exception of the pipeline is the exit code 1.
  pipeline_mode_code :
      (fault : Fault)
      → run default_limit program (new_pipeline default_bytes opts.forwarding) ≡ err fault
      → (finished (run_modes opts program)).code ≡ 1
  unfolding run_pipeline
  pipeline_mode_code fault h =
      let same = ap (λ (r : Result Fault Pipeline). after r (pipeline_report opts)) h in
      finished-some (run_modes opts program) fault (
        ap (λ (o : Output). o.raised)
          (pipeline_mode ∙ ap (λ (o : Output). and_then o (print [])) same))

-- What the process of a run of the pipeline alone is, and the interpreter's end behind it.
abbrev Simulated : Options → Program → Process → Type 0
Simulated opts program process =
    (end : Interpreter) × (final : Pipeline) × (Interpreter.run default_limit program
        (new_interpreter default_bytes)
      ≡ ok end)
    × (process ≡ record { out = (pipeline_report opts final).text; errors = []; code = 0 })
    × (final.regs ≡ end.regs)
    × (final.mem ≡ end.mem)
    × (final.stats.retired ≡ end.retired)

module _ (opts : Options) (program : Program) (interp : opts.run_interp ≡ false)
    (pipe : opts.run_pipeline ≡ true) (all : AllDecode program)
    (paced : Paced program opts.forwarding) where
  drained-Simulated :
      (final : Pipeline)
      → run default_limit program (new_pipeline default_bytes opts.forwarding) ≡ ok final
      → Simulated opts program (finished (run_modes opts program))
  drained-Simulated final h =
      let agrees =
        run-Agrees program default_bytes default_limit opts.forwarding all paced
          (λ limit. ok-not-err (sym h ∙ limit)) in
      let (end, ended, regs, mem, retired) = Agrees-ok agrees h in
      let typed =
        run-IsTyped program 4096 default_limit (new_interpreter default_bytes) end
          (new_interpreter-IsTyped default_bytes (omega arith)) ended in
      let diagram = run-Diagram program default_bytes default_limit opts.forwarding final h in
      let printed = run_pipeline_lem opts program final h in
      let silent =
        pipeline_report-Quiet opts final (subst IsMemory (sym mem) typed.memory)
          (ap (λ (m : DataMemory). m.size_bytes) mem ∙ typed.sized) diagram in
      (
        end,
        final,
        ended,
        ap finished (
              pipeline_mode-Quiet opts program interp pipe (subst Quiet (sym printed) silent)
              ∙ ap (λ (o : Output). print o.text) printed)
            ∙ finished-print _,
        regs,
        mem,
        retired,
      )

  finished-Simulated :
      (r : Result Fault Pipeline)
      → run default_limit program (new_pipeline default_bytes opts.forwarding) ≡ r
      → (finished (run_modes opts program)).code ≡ 0
      → Simulated opts program (finished (run_modes opts program))
  finished-Simulated (ok final) h zero_code = drained-Simulated final h
  finished-Simulated (err fault) h zero_code =
      absurd (other_code (pipeline_mode_code opts program interp pipe fault h) zero_code)

-- With the pipeline alone: if the arguments name a file that assembles and do not ask for the
-- interpreter, the program is separated unless forwarding is on (the instruction behind a branch, a
-- jump or a RET reads no register that this one or the instruction at the address before it writes),
-- and `main` exits with 0, then the interpreter ends within a million steps, and what `main` has
-- printed is the report of a pipeline with the registers, the memory and the number of instructions
-- of the interpreter's end. The report has what `default_mode` makes of the options: where no mode
-- is asked for, the report has the diagram, the statistics and the registers, also where the
-- arguments ask for only some of them.
pub main-simulates :
    (open_file : Text → Option Text) (prog : Text) (args : List Text) (opts : Options)
    (source : Text) (program : Program)
    → parse_args false args initial_options ≡ options opts
    → opts.path ≢ []
    → opts.run_interp ≡ false
    → (opts.forwarding ≡ false → Separated program)
    → open_file opts.path ≡ some source
    → assemble_source source ≡ ok program
    → (main open_file prog args).code ≡ 0
    → (end : Interpreter) × (final : Pipeline) × (Interpreter.run default_limit program
          (new_interpreter default_bytes)
        ≡ ok end)
      × (main open_file prog args ≡ record {
        out = (pipeline_report (default_mode opts) final).text;
        errors = [];
        code = 0;
      })
      × (final.regs ≡ end.regs)
      × (final.mem ≡ end.mem)
      × (final.stats.retired ≡ end.retired)
main-simulates open_file prog args opts source program parsed named alone paced found assembled
      zero_code =
    let (interp, pipe, same) = default_mode-pipeline opts alone in
    let runs =
      main-options open_file prog args opts parsed
      ∙ run_options-some open_file prog opts source named found
      ∙ run_source-ok (default_mode opts) source program assembled in
    subst (Simulated (default_mode opts) program) (sym runs) (
      finished-Simulated (default_mode opts) program interp pipe
        (assemble_source-AllDecode source program assembled) (λ off. paced (sym same ∙ off)) _ refl
        (sym (ap (λ (x : Process). x.code) runs) ∙ zero_code))
