-- ===== src/Cli/Main/Quiet.antt =====
-- The reports of src/main.cpp that throw nothing.
use pipeline_lab.Prelude.{
  ℕ, ◌≡◌, refl, ap, arith, List, [], ◌∷◌, ◌++◌, Bool, true, false, ltb, none, ok, All, Yields,
}
use mathlib.Core.Path.{subst}
use pipeline_lab.Asm.Program.{Program, Text}
use pipeline_lab.Asm.Source.{Raised, assemble_source, assemble_source-Yields}
use pipeline_lab.Asm.Assembler.Code.{Encodes, Encodes-Decodes}
use pipeline_lab.Sim.Memory.{DataMemory}
use pipeline_lab.Sim.Memory.Laws.{IsMemory}
use pipeline_lab.Sim.Interpreter.{Interpreter}
use pipeline_lab.Sim.Interpreter.Typing.{IsTyped}
use pipeline_lab.Sim.Pipeline.State.{Pipeline}
use pipeline_lab.Sim.Pipeline.Fetching.{AllDecode, Decodes-AllDecode}
use pipeline_lab.Viz.Diagram.{render_pipeline_diagram}
use pipeline_lab.Viz.Report.{render_performance_report}
use pipeline_lab.Viz.Diagram.Cells.{Diagram}
use pipeline_lab.Cli.Options.{Options}
use pipeline_lab.Cli.Output.{
  Output, print, in_order, interpreter_outputs, trace_outputs, pipeline_outputs, trace_report, when,
  after, inside, print_memory, print_registers, interpreter_report, pipeline_report,
}
use pipeline_lab.Cli.Output.Words.{print_memory-lines}

-- Nothing is thrown.
pub record Quiet (output : Output) : Type 0 where
  pub silent : output.raised ≡ none

quiet : {output : Output} → output.raised ≡ none → Quiet output
quiet h = record { silent = h }

in_order-Quiet : (outputs : List Output) → All Quiet outputs → Quiet (in_order outputs)
unfolding in_order
in_order-Quiet [] h = quiet refl
in_order-Quiet (a ∷ outputs) (ha, h) =
    quiet (rw (in_order, ha.silent) (in_order-Quiet outputs h).silent)

when-Quiet : (b : Bool) (a : Output) → Quiet a → Quiet (when b a)
when-Quiet true a h = h
when-Quiet false a h = quiet refl

print_memory-Quiet :
    (mem : DataMemory) (words : ℕ)
    → IsMemory mem
    → mem.size_bytes ≡ 4096
    → Quiet (print_memory mem words)
print_memory-Quiet mem words good sized =
    quiet (ap (λ (o : Output). o.raised) (print_memory-lines mem good (omega arith) words))

pub interpreter_report-Quiet :
    (opts : Options) (s : Interpreter) → IsTyped 4096 s → Quiet (interpreter_report opts s)
unfolding interpreter_report print_registers
interpreter_report-Quiet opts s t = in_order-Quiet (interpreter_outputs opts s) (
  quiet refl,
  (
    when-Quiet opts.show_regs (print_registers s.regs) (quiet refl),
    (
      when-Quiet (ltb 0 opts.mem_words) (print_memory s.mem opts.mem_words)
          (print_memory-Quiet s.mem opts.mem_words t.memory t.sized),
      tt,
    ),
  ),
)

rendered-Quiet :
    (pipe : Pipeline)
    → Diagram pipe
    → Quiet (after (inside (render_pipeline_diagram pipe)) (λ text. print (text ++ 10 ∷ [])))
rendered-Quiet pipe d = quiet (rw d.rendered refl)

trace_report-Quiet :
    (opts : Options) (pipe : Pipeline) → Diagram pipe → Quiet (trace_report opts pipe)
unfolding trace_report
trace_report-Quiet opts pipe d =
    in_order-Quiet (trace_outputs opts pipe) (quiet refl, (rendered-Quiet pipe d, tt))

pub pipeline_report-Quiet :
    (opts : Options) (pipe : Pipeline)
    → IsMemory pipe.mem
    → pipe.mem.size_bytes ≡ 4096
    → Diagram pipe
    → Quiet (pipeline_report opts pipe)
unfolding pipeline_report print_registers
pipeline_report-Quiet opts pipe good sized d = in_order-Quiet (pipeline_outputs opts pipe) (
  when-Quiet opts.show_trace (trace_report opts pipe) (trace_report-Quiet opts pipe d),
  (
    when-Quiet opts.show_stats (print (render_performance_report pipe.stats ++ 10 ∷ []))
        (quiet refl),
    (
      when-Quiet opts.show_regs (print_registers pipe.regs) (quiet refl),
      (
        when-Quiet (ltb 0 opts.mem_words) (print_memory pipe.mem opts.mem_words)
            (print_memory-Quiet pipe.mem opts.mem_words good sized),
        tt,
      ),
    ),
  ),
)

pub assemble_source-AllDecode :
    (source : Text) (program : Program) → assemble_source source ≡ ok program → AllDecode program
assemble_source-AllDecode source program e =
    Decodes-AllDecode program (Encodes-Decodes (encodes (assemble_source-Yields source)))
  where
    encodes :
        Yields Raised (λ p. Encodes p.words p.instructions) (assemble_source source)
        → Encodes program.words program.instructions
    encodes h = subst (Yields Raised (λ p. Encodes p.words p.instructions)) e h
