-- ===== src/Cli/Options.antt =====
-- The options of src/main.cpp: the loop over the arguments, and the count of `--mem`.
pub mod Counts
pub mod Arguments
pub mod Given
use pipeline_lab.Prelude.{
  ℕ, ◌+◌, ◌-◌, ◌^◌, List, [], ◌∷◌, ◌++◌, Bool, true, false, not, ◌&&◌, ◌||◌, leb, ltb, ◌==◌,
  if◌then◌else◌, Option, none, some,
}
use pipeline_lab.Prelude.Int.{ℤ, pos, negsuc}
use pipeline_lab.Prelude.Text.{codes}
use pipeline_lab.Asm.Program.{Text}
use pipeline_lab.Asm.Lexer.{span, is_digit, digits_value, next_is}
use pipeline_lab.Asm.Statement.{same_text}

pub record Options : Type 0 where
  pub path : Text
  pub run_interp : Bool
  pub run_pipeline : Bool
  pub show_trace : Bool
  pub show_stats : Bool
  pub show_regs : Bool
  pub forwarding : Bool
  pub mem_words : ℕ

-- `Options opts;`
abbrev pub initial_options : Options
initial_options = record {
  path = [];
  run_interp = false;
  run_pipeline = false;
  show_trace = false;
  show_stats = false;
  show_regs = false;
  forwarding = true;
  mem_words = 0;
}

-- `-n` as an `int`, or `n`; none if an `int` does not hold it.
unfoldable pub int_value : Bool → ℕ → Option ℤ
int_value negative n =
    if negative
    then (if leb n (2 ^ 31) then some (if n == 0 then pos 0 else negsuc (n - 1)) else none)
    else (if ltb n (2 ^ 31) then some (pos n) else none)

-- The value of the digits before `rest`, and `rest`.
unfoldable pub from_digits : Bool → Text → Text → Option (ℤ × Text)
unfolding int_value digits_value
from_digits negative [] rest = none
from_digits negative (d ∷ ds) rest = elim (digits_value false 0 (d ∷ ds)) [
  | none ↦ none
  | some n ↦ elim (int_value negative n) [ none ↦ none | some value ↦ some (value, rest) ]
]

-- `std::from_chars` on an `int`: a minus sign at most, then digits. The value and what is left; none
-- for its two errors.
unfoldable pub from_chars : Text → Option (ℤ × Text)
unfolding span from_digits
from_chars s =
    let negative = next_is (λ c. c == b'-') s in
    let body = if negative then elim s [ [] ↦ [] | _ ∷ cs ↦ cs ] else s in
    let (digits, rest) = span is_digit body in from_digits negative digits rest

-- The count, if it is all of the text and not negative.
unfoldable pub parse_mem_count : Text → Option ℕ
unfolding from_chars
parse_mem_count s = elim (from_chars s) [
  | none ↦ none
  | some (value, rest) ↦ elim rest [
    | _ ∷ _ ↦ none
    | [] ↦ elim value [ pos n ↦ some n | negsuc _ ↦ none ]
  ]
]

-- The branches of the loop, by the argument.
pub data Argument : Type 0 where
  help pipeline interp trace stats regs no_forward mem unknown file : Argument

abbrev starts_with_dash : Text → Bool
starts_with_dash s = next_is (λ c. c == b'-') s

unfoldable pub argument : Text → Argument
unfolding same_text
argument a =
    if same_text a (codes "-h") || same_text a (codes "--help")
    then help
    else if same_text a (codes "--pipeline")
    then pipeline
    else if same_text a (codes "--interp")
    then interp
    else if same_text a (codes "--trace")
    then trace
    else if same_text a (codes "--stats")
    then stats
    else if same_text a (codes "--regs")
    then regs
    else if same_text a (codes "--no-forward")
    then no_forward
    else if same_text a (codes "--mem")
    then mem
    else if starts_with_dash a
    then unknown
    else file

-- How the loop ends: with the options, or with an exit of the program.
pub data Parsed : Type 0 where
  options : Options → Parsed
  shows_help : Parsed
  fails : Text → Parsed

abbrev pub missing_count : Text
missing_count = codes "error: --mem requires a count\n"

abbrev pub invalid_count : Text → Text
invalid_count val = codes "error: invalid --mem count '" ++ val ++ codes "'\n"

abbrev pub unknown_option : Text → Text
unknown_option a = codes "error: unknown option '" ++ a ++ codes "'\n"

-- The loop; the flag tells that the argument is the value of `--mem`, past which `++i` has gone.
unfoldable pub parse_args : Bool → List Text → Options → Parsed
unfolding argument parse_mem_count
parse_args passed [] opts = options opts
parse_args true (_ ∷ rest) opts = parse_args false rest opts
parse_args false (a ∷ rest) opts = elim (argument a) [
  | help ↦ shows_help
  | pipeline ↦ parse_args false rest (record opts { run_pipeline = true })
  | interp ↦ parse_args false rest (record opts { run_interp = true })
  | trace ↦ parse_args false rest (record opts { show_trace = true })
  | stats ↦ parse_args false rest (record opts { show_stats = true })
  | regs ↦ parse_args false rest (record opts { show_regs = true })
  | no_forward ↦ parse_args false rest (record opts { forwarding = false })
  | mem ↦ elim rest [
    | [] ↦ fails missing_count
    | val ∷ _ ↦ elim (parse_mem_count val) [
      | none ↦ fails (invalid_count val)
      | some n ↦ parse_args true rest (record opts { mem_words = n })
    ]
  ]
  | unknown ↦ fails (unknown_option a)
  | file ↦ parse_args false rest (record opts { path = a })
]

-- The default mode.
unfoldable pub default_mode : Options → Options
default_mode opts =
    if not opts.run_interp && not opts.run_pipeline
    then record opts { run_pipeline = true; show_trace = true; show_stats = true; show_regs = true }
    else opts
