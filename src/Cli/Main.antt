-- ===== src/Cli/Main.antt =====
-- `main` of src/main.cpp. `open_file` stands for the file system: the bytes of a file that
-- `std::ifstream` can open.
pub mod Success
pub mod Quiet
pub mod Agreement
pub mod Simulation
use pipeline_lab.Prelude.{
  ℕ, List, [], ◌∷◌, ◌++◌, ◌==◌, if◌then◌else◌, false, Option, none, some, ok, err,
}
use pipeline_lab.Prelude.Text.{codes, decimal}
use pipeline_lab.Asm.Program.{Program, Text}
use pipeline_lab.Asm.Source.{SourceError, lex_error, parse_error, assemble_error, assemble_source}
use pipeline_lab.Sim.Fault.{Fault}
use pipeline_lab.Cli.Options.{
  Options, initial_options, Parsed, options, shows_help, fails, parse_args, default_mode,
}
use pipeline_lab.Cli.Messages.{lex_what, parse_what, assemble_what, fault_what}
use pipeline_lab.Cli.Output.{Output, run_modes}

-- What a run of the program leaves: `std::cout`, `std::cerr` and the exit code.
pub record Process : Type 0 where
  pub out : Text
  pub errors : Text
  pub code : ℕ

unfoldable pub usage : Text → Text
usage prog =
    codes "Usage: "
    ++ prog
    ++ codes " <file.asm> [options]\n"
    ++ codes "\n"
    ++ codes "Modes (default: --pipeline --trace --stats --regs):\n"
    ++ codes "  --pipeline      run the 5-stage pipeline simulator\n"
    ++ codes "  --interp        run the sequential reference interpreter\n"
    ++ codes "\n"
    ++ codes "Output:\n"
    ++ codes "  --trace         print the cycle-by-cycle pipeline diagram\n"
    ++ codes "  --stats         print the performance report\n"
    ++ codes "  --regs          print the final register file\n"
    ++ codes "  --mem N         print the first N words of data memory\n"
    ++ codes "\n"
    ++ codes "Pipeline options:\n"
    ++ codes "  --no-forward    disable operand forwarding (more stalls)\n"
    ++ codes "  -h, --help      show this help\n"

abbrev at_line : Text → ℕ → Text
at_line path line = path ++ codes ":" ++ decimal line

-- What `<<` prints of a `const char*`: the bytes before the first NUL.
unfoldable pub c_string : Text → Text
c_string [] = []
c_string (c ∷ cs) = let rest = c_string cs in if c == 0 then [] else c ∷ rest

-- The message of the handlers of the first `try`.
unfoldable pub source_message : Text → SourceError → Text
unfolding lex_what parse_what assemble_what decimal c_string
source_message path (lex_error e) =
    at_line path e.line ++ codes ": lex error: " ++ c_string (lex_what e.reason) ++ 10 ∷ []
source_message path (parse_error e) =
    at_line path e.line ++ codes ": parse error: " ++ c_string (parse_what e.reason) ++ 10 ∷ []
source_message path (assemble_error e) =
    at_line path e.line ++ codes ": error: " ++ c_string (assemble_what e.reason) ++ 10 ∷ []

-- The handler of the second `try`.
unfoldable pub finished : Output → Process
unfolding fault_what c_string
finished output = elim output.raised [
  | none ↦ record { out = output.text; errors = []; code = 0 }
  | some fault ↦ record {
    out = output.text;
    errors = codes "runtime error: " ++ c_string (fault_what fault) ++ 10 ∷ [];
    code = 1;
  }
]

unfoldable pub run_source : Options → Text → Process
unfolding source_message finished run_modes
run_source opts source = elim (assemble_source source) [
  | err e ↦ record { out = []; errors = source_message opts.path e; code = 1 }
  | ok program ↦ finished (run_modes opts program)
]

-- With the bytes of the file, if it can be opened.
unfoldable pub run_file : Options → Option Text → Process
unfolding run_source default_mode
run_file opts none = record {
  out = [];
  errors = codes "error: cannot open '" ++ opts.path ++ codes "'\n";
  code = 2;
}
run_file opts (some source) = run_source (default_mode opts) source

-- The program once its options are known.
unfoldable pub run_options : (Text → Option Text) → Text → Options → Process
unfolding usage run_file
run_options open_file prog opts = elim opts.path [
  | [] ↦ record { out = usage prog; errors = []; code = 2 }
  | _ ∷ _ ↦ run_file opts (open_file opts.path)
]

-- `argv` is `prog` and `args`.
unfoldable pub main : (Text → Option Text) → Text → List Text → Process
unfolding parse_args run_options usage
main open_file prog args = elim (parse_args false args initial_options) [
  | shows_help ↦ record { out = usage prog; errors = []; code = 0 }
  | fails message ↦ record { out = []; errors = message; code = 2 }
  | options opts ↦ run_options open_file prog opts
]
