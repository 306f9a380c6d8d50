-- ===== src/Cli/Main/Success.antt =====
-- When the program of src/main.cpp exits with 0.
use pipeline_lab.Prelude.{
  ℕ, suc, ◌≡◌, ◌≢◌, ◌↔◌, ◌⊎◌, inl, inr, refl, sym, ap, ◌∙◌, arith, List, [], ◌∷◌, false, Option,
  none, some, Result, ok, err,
}
use pipeline_lab.Asm.Program.{Program, Text}
use pipeline_lab.Asm.Source.{SourceError, assemble_source}
use pipeline_lab.Sim.Fault.{Fault}
use pipeline_lab.Cli.Options.{
  Options, initial_options, Parsed, options, shows_help, fails, parse_args, default_mode,
}
use pipeline_lab.Cli.Output.{Output, run_modes}
use pipeline_lab.Cli.Main.{Process, finished, run_source, run_file, run_options, main}

-- The source assembles, and the modes run through.
abbrev pub SourceRuns : Options → Text → Type 0
SourceRuns opts source =
    (program : Program) × (assemble_source source ≡ ok program)
    × ((run_modes opts program).raised ≡ none)

-- A file is named, it can be opened, and its source runs through.
abbrev pub FileRuns : (Text → Option Text) → Options → Type 0
FileRuns open_file opts =
    (opts.path ≢ [])
    × ((source : Text) × (open_file opts.path ≡ some source)
        × SourceRuns (default_mode opts) source)

finished-none : (output : Output) → output.raised ≡ none → (finished output).code ≡ 0
unfolding finished
finished-none output e = rw (finished, e) refl

pub finished-some :
    (output : Output) (fault : Fault) → output.raised ≡ some fault → (finished output).code ≡ 1
unfolding finished
finished-some output fault e = rw (finished, e) refl

-- An exit with another code is no success.
pub other_code : {n k : ℕ} → n ≡ suc k → n ≡ 0 → ⊥
other_code e zero_code = omega arith

module _ (opts : Options) (source : Text) where
  pub run_source-ok :
      (program : Program)
      → assemble_source source ≡ ok program
      → run_source opts source ≡ finished (run_modes opts program)
  unfolding run_source
  run_source-ok program e = rw (run_source, e) refl

  run_source-err :
      (error : SourceError) → assemble_source source ≡ err error → (run_source opts source).code ≡ 1
  unfolding run_source
  run_source-err error e = rw (run_source, e) refl

  run_source-SourceRuns_iff : ((run_source opts source).code ≡ 0) ↔ SourceRuns opts source
  run_source-SourceRuns_iff = (there (assemble_source source) refl, back)
    where
      ended :
          (program : Program)
          → (run_source opts source).code ≡ 0
          → assemble_source source ≡ ok program
          → (raised : Option Fault) → (run_modes opts program).raised ≡ raised
          → SourceRuns opts source
      ended program zero_code e none r = (program, e, r)
      ended program zero_code e (some fault) r = absurd (
          other_code
            (ap (λ (x : Process). x.code) (run_source-ok program e) ∙ finished-some _ fault r)
            zero_code)

      there :
          (r : Result SourceError Program)
          → assemble_source source ≡ r
          → (run_source opts source).code ≡ 0
          → SourceRuns opts source
      there (ok program) e zero_code = ended program zero_code e _ refl
      there (err error) e zero_code = absurd (other_code (run_source-err error e) zero_code)

      back : SourceRuns opts source → (run_source opts source).code ≡ 0
      back (program, e, r) =
          ap (λ (x : Process). x.code) (run_source-ok program e) ∙ finished-none _ r

path_named : (path : Text) (x y : Process) → path ≢ [] → (elim path [ [] ↦ x | _ ∷ _ ↦ y ]) ≡ y
path_named [] x y named = absurd (named refl)
path_named (c ∷ cs) x y named = refl

path_code :
    (path : Text) (x y : Process)
    → x.code ≡ 2
    → y.code ≡ 2
    → ◌≡◌ {A = ℕ} (elim path as (λ _. Process) [ [] ↦ x | _ ∷ _ ↦ y ]).code 2
path_code [] x y hx hy = hx
path_code (c ∷ cs) x y hx hy = hy

run_file-some :
    (opts : Options) (source : Text)
    → run_file opts (some source) ≡ run_source (default_mode opts) source
unfolding run_file
run_file-some opts source = refl

module _ (open_file : Text → Option Text) (prog : Text) (opts : Options) where
  pub run_options-some :
      (source : Text)
      → opts.path ≢ []
      → open_file opts.path ≡ some source
      → run_options open_file prog opts ≡ run_source (default_mode opts) source
  unfolding run_options
  run_options-some source named e =
      path_named opts.path _ (run_file opts (open_file opts.path)) named
      ∙ ap (run_file opts) e
      ∙ run_file-some opts source

  run_options-unnamed : opts.path ≡ [] → (run_options open_file prog opts).code ≡ 2
  unfolding run_options
  run_options-unnamed p = rw (run_options, p) refl

  run_options-unopened : open_file opts.path ≡ none → (run_options open_file prog opts).code ≡ 2
  unfolding run_options run_file
  run_options-unopened e =
      path_code opts.path _ (run_file opts (open_file opts.path)) refl
        (ap (λ (found : Option Text). (run_file opts found).code) e)

  run_options-FileRuns_iff : ((run_options open_file prog opts).code ≡ 0) ↔ FileRuns open_file opts
  run_options-FileRuns_iff = (there (open_file opts.path) refl, back)
    where
      there :
          (found : Option Text)
          → open_file opts.path ≡ found
          → (run_options open_file prog opts).code ≡ 0
          → FileRuns open_file opts
      there none e zero_code = absurd (other_code (run_options-unopened e) zero_code)
      there (some source) e zero_code =
          let named : opts.path ≢ [] = λ p. other_code (run_options-unnamed p) zero_code in
          let same = ap (λ (x : Process). x.code) (run_options-some source named e) in
          (
            named,
            (
              source,
              e,
              (run_source-SourceRuns_iff (default_mode opts) source).0 (sym same ∙ zero_code),
            ),
          )

      back : FileRuns open_file opts → (run_options open_file prog opts).code ≡ 0
      back (named, (source, e, runs)) =
          ap (λ (x : Process). x.code) (run_options-some source named e)
          ∙ (run_source-SourceRuns_iff (default_mode opts) source).1 runs

module _ (open_file : Text → Option Text) (prog : Text) (args : List Text) where
  main-help :
      parse_args false args initial_options ≡ shows_help → (main open_file prog args).code ≡ 0
  unfolding main
  main-help e = rw (main, e) refl

  main-fails :
      (m : Text)
      → parse_args false args initial_options ≡ fails m
      → (main open_file prog args).code ≡ 2
  unfolding main
  main-fails m e = rw (main, e) refl

  pub main-options :
      (opts : Options)
      → parse_args false args initial_options ≡ options opts
      → main open_file prog args ≡ run_options open_file prog opts
  unfolding main
  main-options opts e = rw (main, e) refl

  -- The program exits with 0 exactly if it was asked for help, or else if the arguments name a file
  -- that can be opened, its source assembles and no mode that runs (the pipeline if none was asked
  -- for) ends with an exception.
  pub main-code-eq-zero_iff :
      ((main open_file prog args).code ≡ 0)
      ↔ (parse_args false args initial_options ≡ shows_help)
        ⊎ ((opts : Options) × (parse_args false args initial_options ≡ options opts)
            × FileRuns open_file opts)
  main-code-eq-zero_iff = (there _ refl, back)
    where
      there :
          (parsed : Parsed)
          → parse_args false args initial_options ≡ parsed
          → (main open_file prog args).code ≡ 0
          → (parse_args false args initial_options ≡ shows_help)
            ⊎ ((opts : Options) × (parse_args false args initial_options ≡ options opts)
                × FileRuns open_file opts)
      there shows_help e zero_code = inl e
      there (fails m) e zero_code = absurd (other_code (main-fails m e) zero_code)
      there (options opts) e zero_code =
          let same = ap (λ (x : Process). x.code) (main-options opts e) in
          inr (opts, e, (run_options-FileRuns_iff open_file prog opts).0 (sym same ∙ zero_code))

      back :
          (parse_args false args initial_options ≡ shows_help)
            ⊎ ((opts : Options) × (parse_args false args initial_options ≡ options opts)
                × FileRuns open_file opts)
          → (main open_file prog args).code ≡ 0
      back (inl e) = main-help e
      back (inr (opts, e, runs)) =
          ap (λ (x : Process). x.code) (main-options opts e)
          ∙ (run_options-FileRuns_iff open_file prog opts).1 runs
