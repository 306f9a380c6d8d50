-- ===== src/Cli/Options/Arguments.antt =====
-- The loop of src/main.cpp over the arguments.
use pipeline_lab.Prelude.{ℕ, ◌≡◌, refl, ap, sym, List, [], ◌∷◌, true, false, some}
use pipeline_lab.Asm.Program.{Text}
use pipeline_lab.Cli.Options.{
  Options, Argument, argument, help, pipeline, interp, trace, stats, regs, no_forward, mem, unknown,
  file, options, parse_args, parse_mem_count,
}

-- The arguments that set an option by themselves, and the options then.
abbrev pub Sets : Argument → Text → Options → Options → Type 0
Sets pipeline a opts o = o ≡ record opts { run_pipeline = true }
Sets interp a opts o = o ≡ record opts { run_interp = true }
Sets trace a opts o = o ≡ record opts { show_trace = true }
Sets stats a opts o = o ≡ record opts { show_stats = true }
Sets regs a opts o = o ≡ record opts { show_regs = true }
Sets no_forward a opts o = o ≡ record opts { forwarding = false }
Sets file a opts o = o ≡ record opts { path = a }
Sets _ a opts o = ⊥

pub parse_args-Sets :
    (kind : Argument) (a : Text) (rest : List Text) (opts o : Options)
    → argument a ≡ kind
    → Sets kind a opts o
    → parse_args false (a ∷ rest) opts ≡ parse_args false rest o
unfolding parse_args
parse_args-Sets pipeline a rest opts o at sets =
    rw (parse_args, at) (ap (parse_args false rest) (sym sets))
parse_args-Sets interp a rest opts o at sets =
    rw (parse_args, at) (ap (parse_args false rest) (sym sets))
parse_args-Sets trace a rest opts o at sets =
    rw (parse_args, at) (ap (parse_args false rest) (sym sets))
parse_args-Sets stats a rest opts o at sets =
    rw (parse_args, at) (ap (parse_args false rest) (sym sets))
parse_args-Sets regs a rest opts o at sets =
    rw (parse_args, at) (ap (parse_args false rest) (sym sets))
parse_args-Sets no_forward a rest opts o at sets =
    rw (parse_args, at) (ap (parse_args false rest) (sym sets))
parse_args-Sets file a rest opts o at sets =
    rw (parse_args, at) (ap (parse_args false rest) (sym sets))
parse_args-Sets help a rest opts o at sets = elim sets [ ]
parse_args-Sets mem a rest opts o at sets = elim sets [ ]
parse_args-Sets unknown a rest opts o at sets = elim sets [ ]

pub parse_args-mem_value :
    (a val : Text) (rest : List Text) (opts : Options) (n : ℕ)
    → argument a ≡ mem
    → parse_mem_count val ≡ some n
    → parse_args false (a ∷ val ∷ rest) opts ≡ parse_args false rest (record opts { mem_words = n })
unfolding parse_args
parse_args-mem_value a val rest opts n at count = rw (parse_args, at, count) refl

pub parse_args-nil : (opts : Options) → parse_args false [] opts ≡ options opts
unfolding parse_args
parse_args-nil opts = refl
