-- ===== src/Cli/Output.antt =====
-- What src/main.cpp prints of a simulator. An output ends early if an exception leaves it.
pub mod Words
use pipeline_lab.Prelude.{
  ℕ, zero, suc, ◌+◌, ◌*◌, ◌%◌, List, [], ◌∷◌, ◌++◌, length, ltb, ◌==◌, Bool, true, false,
  if◌then◌else◌, Option, none, some, Result, ok, err,
}
use pipeline_lab.Prelude.Text.{codes, decimal, signed_decimal}
use pipeline_lab.Words.{u32, signed}
use pipeline_lab.Asm.Program.{Program, Text}
use pipeline_lab.Sim.Fault.{Fault, outside_storage}
use pipeline_lab.Sim.RegisterFile.{RegisterFile}
use pipeline_lab.Sim.Memory.{DataMemory, load_word}
use pipeline_lab.Sim.Interpreter
use pipeline_lab.Sim.Interpreter.{Interpreter, new_interpreter}
use pipeline_lab.Sim.Pipeline.State.{Pipeline, new_pipeline}
use pipeline_lab.Sim.Pipeline.Cycle.{run}
use pipeline_lab.Viz.Diagram.{render_pipeline_diagram}
use pipeline_lab.Viz.Report.{render_performance_report}
use pipeline_lab.Cli.Options.{Options}

-- What has been printed on `std::cout`, and the exception in flight.
pub record Output : Type 0 where
  pub text : Text
  pub raised : Option Fault

abbrev pub print : Text → Output
print text = record { text = text; raised = none }

abbrev pub raise : Fault → Output
raise fault = record { text = []; raised = some fault }

-- `a; b;`
abbrev pub and_then : Output → Output → Output
and_then a b = elim a.raised [
  | none ↦ record { text = a.text ++ b.text; raised = b.raised }
  | some fault ↦ a
]

-- Statements in their order.
unfoldable pub in_order : List Output → Output
in_order [] = print []
in_order (a ∷ outputs) = and_then a (in_order outputs)

abbrev pub when : Bool → Output → Output
when b output = if b then output else print []

-- The code after a call that may throw.
abbrev pub after {ℓ} : {A : Type ℓ} → Result Fault A → (A → Output) → Output
after (ok a) next = next a
after (err fault) next = raise fault

-- The registers from `i` on, four to a line.
unfoldable pub register_cells : ℕ → List ℕ → Text
unfolding decimal signed_decimal
register_cells i [] = []
register_cells i (value ∷ values) =
    codes "r"
    ++ decimal i
    ++ (if ltb i 10 then codes " " else [])
    ++ codes " = "
    ++ signed_decimal (signed value)
    ++ (if i % 4 == 3 then 10 ∷ [] else 9 ∷ [])
    ++ register_cells (i + 1) values

unfoldable pub print_registers : RegisterFile → Output
unfolding register_cells
print_registers r = print (
    codes "=== Registers ===\n"
    ++ register_cells 0 r.regs
    ++ (if length r.regs % 4 == 0 then [] else 10 ∷ []))

unfoldable pub memory_line : ℕ → ℕ → Text
unfolding decimal signed_decimal
memory_line addr value =
    codes "[" ++ decimal addr ++ codes "] = " ++ signed_decimal (signed value) ++ 10 ∷ []

-- The loop of `printMemory` from `i` on, by the words that are left.
unfoldable pub print_words : ℕ → ℕ → DataMemory → Output
unfolding memory_line
print_words zero i mem = print []
print_words (suc left) i mem =
    let addr = u32 (u32 i * 4) in
    elim (ltb mem.size_bytes (u32 (addr + 4))) [
      | true ↦ print []
      | false ↦
          after (load_word mem addr)
            λ value. and_then (print (memory_line addr value)) (print_words left (i + 1) mem)
    ]

unfoldable pub print_memory : DataMemory → ℕ → Output
unfolding print_words decimal
print_memory mem words =
    and_then (print (codes "=== Data memory (first " ++ decimal words ++ codes " words) ===\n"))
      (print_words words 0 mem)

-- `maxSteps` and `maxCycles` by default.
abbrev pub default_limit : ℕ
default_limit = 1000000

-- `dataBytes` by default.
abbrev pub default_bytes : ℕ
default_bytes = 4096

-- A write past the end of the diagram's grid has no meaning in C++.
abbrev pub inside : Option Text → Result Fault Text
inside none = err (outside_storage 0)
inside (some text) = ok text

-- What is printed of an interpreter that has run.
abbrev pub interpreter_outputs : Options → Interpreter → List Output
interpreter_outputs opts interp =
    print (
      codes "=== Interpreter (sequential reference) ===\n"
      ++ codes "Instructions retired: "
      ++ decimal interp.retired
      ++ codes "\n\n")
    ∷ when opts.show_regs (print_registers interp.regs)
    ∷ when (ltb 0 opts.mem_words) (print_memory interp.mem opts.mem_words)
    ∷ []

unfoldable pub interpreter_report : Options → Interpreter → Output
unfolding in_order print_registers print_memory decimal
interpreter_report opts interp = in_order (interpreter_outputs opts interp)

unfoldable pub run_interpreter : Options → Program → Output
unfolding interpreter_report
run_interpreter opts program =
    after (Interpreter.run default_limit program (new_interpreter default_bytes))
      (interpreter_report opts)

-- The diagram of a pipeline that has run, with its title.
abbrev pub trace_outputs : Options → Pipeline → List Output
trace_outputs opts pipe =
    print (
      codes "=== Pipeline diagram"
      ++ (if opts.forwarding then [] else codes " (no forwarding)")
      ++ codes " ===\n")
    ∷ after (inside (render_pipeline_diagram pipe)) (λ text. print (text ++ 10 ∷ []))
    ∷ []

unfoldable pub trace_report : Options → Pipeline → Output
unfolding in_order
trace_report opts pipe = in_order (trace_outputs opts pipe)

-- What is printed of a pipeline that has run.
abbrev pub pipeline_outputs : Options → Pipeline → List Output
pipeline_outputs opts pipe =
    when opts.show_trace (trace_report opts pipe)
    ∷ when opts.show_stats (print (render_performance_report pipe.stats ++ 10 ∷ []))
    ∷ when opts.show_regs (print_registers pipe.regs)
    ∷ when (ltb 0 opts.mem_words) (print_memory pipe.mem opts.mem_words)
    ∷ []

unfoldable pub pipeline_report : Options → Pipeline → Output
unfolding in_order print_registers print_memory trace_report
pipeline_report opts pipe = in_order (pipeline_outputs opts pipe)

unfoldable pub run_pipeline : Options → Program → Output
unfolding pipeline_report
run_pipeline opts program =
    after (run default_limit program (new_pipeline default_bytes opts.forwarding))
      (pipeline_report opts)

-- The body of the second `try`.
unfoldable pub run_modes : Options → Program → Output
unfolding run_interpreter run_pipeline in_order
run_modes opts program = in_order (
    when opts.run_interp (run_interpreter opts program)
    ∷ when opts.run_pipeline (run_pipeline opts program)
    ∷ [])
