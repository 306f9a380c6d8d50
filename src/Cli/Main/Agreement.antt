-- ===== src/Cli/Main/Agreement.antt =====
-- src/main.cpp with both modes: what it prints of the pipeline agrees with what it prints of the
-- interpreter.
use pipeline_lab.Prelude.{
  ◌+◌, ◌*◌, ◌≤◌, ◌≡◌, ◌≢◌, refl, sym, ap, ◌∙◌, arith, List, [], ◌++◌, true, false, Option, some,
  Result, ok,
}
use mathlib.Core.Path.{subst}
use mathlib.Core.List.{append-nil}
use pipeline_lab.Asm.Program.{Program, Text}
use pipeline_lab.Asm.Source.{assemble_source}
use pipeline_lab.Sim.Fault.{Fault}
use pipeline_lab.Sim.Memory.{DataMemory}
use pipeline_lab.Sim.Memory.Laws.{IsMemory}
use pipeline_lab.Sim.Interpreter
use pipeline_lab.Sim.Interpreter.{Interpreter, new_interpreter}
use pipeline_lab.Sim.Interpreter.Typing.{run-IsTyped, new_interpreter-IsTyped}
use pipeline_lab.Sim.Pipeline.State.{Pipeline, new_pipeline}
use pipeline_lab.Sim.Pipeline.Cycle.{run}
use pipeline_lab.Sim.Pipeline.Correct.{run-Paced}
use pipeline_lab.Sim.Pipeline.Separation.{Separated}
use pipeline_lab.Viz.Diagram.Cells.{run-Diagram}
use pipeline_lab.Cli.Options.{Options, initial_options, options, parse_args, default_mode}
use pipeline_lab.Cli.Output.{
  Output, print, and_then, in_order, when, after, interpreter_report, pipeline_report,
  run_interpreter, run_pipeline, run_modes, default_limit, default_bytes,
}
use pipeline_lab.Cli.Main.{finished, run_source, main}
use pipeline_lab.Cli.Main.Success.{run_source-ok, run_options-some, main-options}
use pipeline_lab.Cli.Main.Quiet.{
  Quiet, interpreter_report-Quiet, pipeline_report-Quiet, assemble_source-AllDecode,
}

pub and_then_lem :
    (a b : Output)
    → Quiet a
    → (and_then a b) ≡ record { text = a.text ++ b.text; raised = b.raised }
and_then_lem a b q = rw q.silent refl

and_then_two :
    (a b : Output)
    → Quiet a
    → Quiet b
    → (and_then a (and_then b (print []))) ≡ print (a.text ++ b.text)
and_then_two a b qa qb =
    ap (λ (o : Output). and_then a o) (and_then_lem b (print []) qb ∙ ap print (append-nil b.text))
    ∙ and_then_lem a (print b.text) qa

both_modes :
    (opts : Options) (program : Program) (a b : Output)
    → opts.run_interp ≡ true
    → opts.run_pipeline ≡ true
    → run_interpreter opts program ≡ a
    → run_pipeline opts program ≡ b
    → Quiet a
    → Quiet b
    → run_modes opts program ≡ print (a.text ++ b.text)
unfolding run_modes in_order
both_modes opts program a b interp pipe ha hb qa qb =
    (λ i. and_then (when (interp i) (ha i)) (and_then (when (pipe i) (hb i)) (print [])))
    ∙ and_then_two a b qa qb

run_interpreter_lem :
    (opts : Options) (program : Program) (end : Interpreter)
    → Interpreter.run default_limit program (new_interpreter default_bytes) ≡ ok end
    → run_interpreter opts program ≡ interpreter_report opts end
unfolding run_interpreter
run_interpreter_lem opts program end ended =
    ap (λ (r : Result Fault Interpreter). after r (interpreter_report opts)) ended

pub run_pipeline_lem :
    (opts : Options) (program : Program) (final : Pipeline)
    → run default_limit program (new_pipeline default_bytes opts.forwarding) ≡ ok final
    → run_pipeline opts program ≡ pipeline_report opts final
unfolding run_pipeline
run_pipeline_lem opts program final halts =
    ap (λ (r : Result Fault Pipeline). after r (pipeline_report opts)) halts

default_mode-kept : (opts : Options) → opts.run_interp ≡ true → default_mode opts ≡ opts
unfolding default_mode
default_mode-kept opts h = rw (default_mode, h) refl

pub finished-print :
    (text : Text) → finished (print text) ≡ record { out = text; errors = []; code = 0 }
unfolding finished
finished-print text = refl

-- With both modes, what is printed agrees: if the arguments name a file that assembles, the program
-- is separated unless forwarding is on (the instruction behind a branch, a jump or a RET reads no
-- register that this one or the instruction at the address before it writes), and the interpreter
-- ends in the state `end` within a million steps and a million cycles are at least three for each
-- of its instructions and two more, then the program exits with 0 and prints the report of the
-- interpreter on `end`, then the report of a pipeline that has the registers, the memory and the
-- number of instructions of `end`.
pub main-agrees :
    (open_file : Text → Option Text) (prog : Text) (args : List Text) (opts : Options)
    (source : Text) (program : Program) (end : Interpreter)
    → parse_args false args initial_options ≡ options opts
    → opts.path ≢ []
    → opts.run_interp ≡ true
    → opts.run_pipeline ≡ true
    → (opts.forwarding ≡ false → Separated program)
    → open_file opts.path ≡ some source
    → assemble_source source ≡ ok program
    → Interpreter.run default_limit program (new_interpreter default_bytes) ≡ ok end
    → 3 * end.retired + 2 ≤ default_limit
    → (final : Pipeline) × (main open_file prog args ≡ record {
      out = (interpreter_report opts end).text ++ (pipeline_report opts final).text;
      errors = [];
      code = 0;
    })
      × (final.regs ≡ end.regs)
      × (final.mem ≡ end.mem)
      × (final.stats.retired ≡ end.retired)
main-agrees open_file prog args opts source program end parsed named interp pipe paced found
      assembled ended enough =
    let all = assemble_source-AllDecode source program assembled in
    let (final, halts, regs, mem, retired, _) =
      run-Paced program default_bytes default_limit default_limit opts.forwarding end paced all
        ended enough in
    let typed =
      run-IsTyped program 4096 default_limit (new_interpreter default_bytes) end
        (new_interpreter-IsTyped default_bytes (omega arith)) ended in
    let diagram = run-Diagram program default_bytes default_limit opts.forwarding final halts in
    (
      final,
      main-options open_file prog args opts parsed
          ∙ run_options-some open_file prog opts source named found
          ∙ ap (λ (o : Options). run_source o source) (default_mode-kept opts interp)
          ∙ run_source-ok opts source program assembled
          ∙ ap finished (
              both_modes opts program (interpreter_report opts end) (pipeline_report opts final)
                interp pipe (run_interpreter_lem opts program end ended)
                (run_pipeline_lem opts program final halts)
                (interpreter_report-Quiet opts end typed)
                (pipeline_report-Quiet opts final (subst IsMemory (sym mem) typed.memory)
                  (ap (λ (m : DataMemory). m.size_bytes) mem ∙ typed.sized) diagram))
          ∙ finished-print _,
      regs,
      mem,
      retired,
    )
