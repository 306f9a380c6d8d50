-- ===== src/Cli/Options/Given.antt =====
-- The flags of src/main.cpp, read back from the arguments that give them.
use pipeline_lab.Prelude.{
  ◌^◌, ◌<◌, ◌≡◌, refl, ◌∙◌, List, [], ◌∷◌, ◌++◌, Bool, true, false, not, ◌==◌,
}
use pipeline_lab.Prelude.Text.{codes, decimal}
use pipeline_lab.Asm.Program.{Text}
use pipeline_lab.Cli.Options.{Options, initial_options, argument, options, parse_args, mem, file}
use pipeline_lab.Asm.Lexer.{next_is}
use pipeline_lab.Asm.Statement.{same_text}
use pipeline_lab.Cli.Options.Arguments.{parse_args-mem_value, parse_args-Sets, parse_args-nil}
use pipeline_lab.Cli.Options.Counts.{parse_mem_count-decimal}

-- A flag, if it is given.
abbrev flag : Bool → Text → List Text
flag true name = name ∷ []
flag false name = []

-- The arguments that ask for the options.
unfoldable pub arguments : Options → List Text
arguments o =
    flag o.run_pipeline (codes "--pipeline")
    ++ (flag o.run_interp (codes "--interp")
        ++ (flag o.show_trace (codes "--trace")
            ++ (flag o.show_stats (codes "--stats")
                ++ (flag o.show_regs (codes "--regs")
                    ++ (flag (not o.forwarding) (codes "--no-forward")
                        ++ codes "--mem" ∷ decimal o.mem_words ∷ o.path ∷ [])))))

module _ (rest : List Text) (opts : Options) where
  pipeline_flag :
      (b : Bool)
      → parse_args false
          (flag b (codes "--pipeline") ++ rest)
          (record opts { run_pipeline = false })
        ≡ parse_args false rest (record opts { run_pipeline = b })
  unfolding parse_args argument same_text
  pipeline_flag true = refl
  pipeline_flag false = refl

  interp_flag :
      (b : Bool)
      → parse_args false (flag b (codes "--interp") ++ rest) (record opts { run_interp = false })
        ≡ parse_args false rest (record opts { run_interp = b })
  unfolding parse_args argument same_text
  interp_flag true = refl
  interp_flag false = refl

  trace_flag :
      (b : Bool)
      → parse_args false (flag b (codes "--trace") ++ rest) (record opts { show_trace = false })
        ≡ parse_args false rest (record opts { show_trace = b })
  unfolding parse_args argument same_text
  trace_flag true = refl
  trace_flag false = refl

  stats_flag :
      (b : Bool)
      → parse_args false (flag b (codes "--stats") ++ rest) (record opts { show_stats = false })
        ≡ parse_args false rest (record opts { show_stats = b })
  unfolding parse_args argument same_text
  stats_flag true = refl
  stats_flag false = refl

  regs_flag :
      (b : Bool)
      → parse_args false (flag b (codes "--regs") ++ rest) (record opts { show_regs = false })
        ≡ parse_args false rest (record opts { show_regs = b })
  unfolding parse_args argument same_text
  regs_flag true = refl
  regs_flag false = refl

  no_forward_flag :
      (b : Bool)
      → parse_args false
          (flag (not b) (codes "--no-forward") ++ rest)
          (record opts { forwarding = true })
        ≡ parse_args false rest (record opts { forwarding = b })
  unfolding parse_args argument same_text
  no_forward_flag true = refl
  no_forward_flag false = refl

-- A text that does not begin with a dash is a file's path.
argument-file : (path : Text) → next_is (λ c. c == b'-') path ≡ false → argument path ≡ file
unfolding argument same_text
argument-file [] other = refl
argument-file (c ∷ cs) other = rw other refl

mem_argument : argument (codes "--mem") ≡ mem
unfolding argument same_text
mem_argument = refl

-- The count and the path, behind the flags.
mem_path :
    (o opts : Options)
    → o.mem_words < 2 ^ 31
    → argument o.path ≡ file
    → parse_args false (codes "--mem" ∷ decimal o.mem_words ∷ o.path ∷ []) opts
      ≡ options (record opts { mem_words = o.mem_words; path = o.path })
mem_path o opts small named =
    parse_args-mem_value (codes "--mem") (decimal o.mem_words) (o.path ∷ []) opts o.mem_words
      mem_argument (parse_mem_count-decimal o.mem_words small)
    ∙ parse_args-Sets file o.path [] _ _ named refl
    ∙ parse_args-nil _

-- Every options can be asked for: the arguments that list them - each mode and each output by its
-- flag, --no-forward if forwarding is off, the count behind --mem and the path - are read back as
-- these options, for a count that an `int` holds and a path that does not begin with a dash.
pub parse_args-arguments :
    (o : Options)
    → o.mem_words < 2 ^ 31
    → next_is (λ c. c == b'-') o.path ≡ false
    → parse_args false (arguments o) initial_options ≡ options o
unfolding arguments
parse_args-arguments o small named =
    let o1 = record initial_options { run_pipeline = o.run_pipeline } in
    let o2 = record o1 { run_interp = o.run_interp } in
    let o3 = record o2 { show_trace = o.show_trace } in
    let o4 = record o3 { show_stats = o.show_stats } in
    let o5 = record o4 { show_regs = o.show_regs } in
    let o6 = record o5 { forwarding = o.forwarding } in
    pipeline_flag _ initial_options o.run_pipeline
    ∙ interp_flag _ o1 o.run_interp
    ∙ trace_flag _ o2 o.show_trace
    ∙ stats_flag _ o3 o.show_stats
    ∙ regs_flag _ o4 o.show_regs
    ∙ no_forward_flag _ o5 o.forwarding
    ∙ mem_path o o6 small (argument-file o.path named)
