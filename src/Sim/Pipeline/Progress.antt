-- ===== src/Sim/Pipeline/Progress.antt =====
-- The progress of src/sim/pipeline.cpp beside the interpreter of src/sim/interpreter.cpp: how the
-- instructions come into EX and are carried out, cycle by cycle, and the pipeline at reset.
use pipeline_lab.Prelude.{
  ℕ, zero, suc, ◌+◌, ◌-◌, ◌/◌, ◌≤◌, ◌<◌, ◌≡◌, refl, sym, ◌∙◌, arith, true, false, Result, ok, ◌>>=◌,
  Bool, Bool-cases, inl, inr, ◌⊎◌, ltb, if◌then◌else◌, ok-injective, All-replicate,
}
use mathlib.Core.Path.{subst}
use pipeline_lab.Words.{u32, IsWord}
use pipeline_lab.Isa.Instruction.{Instruction}
use pipeline_lab.Isa.Encoding.{decode}
use pipeline_lab.Asm.Program.{Program, code_bytes, word_at}
use pipeline_lab.Sim.Fault.{Fault}
use pipeline_lab.Sim.Interpreter.{Interpreter, step, running, new_interpreter}
use pipeline_lab.Sim.Interpreter.Semantics.{Executes, step-eq-running}
use pipeline_lab.Sim.Bounds.{AreWords}
use pipeline_lab.Sim.Pipeline.State.{Pipeline, empty_latch, new_pipeline}
use pipeline_lab.Sim.Pipeline.Stages.{access, written, detect_stall}
use pipeline_lab.Sim.Pipeline.Cycle.{cycle}
use pipeline_lab.Sim.Pipeline.Fetching.{AllDecode}
use pipeline_lab.Sim.Pipeline.Refinement.{
  Fetched, Entered, Front, empty, one_fetched, last, full, wait, patience, Accounts, Matches, Paced,
  Rest, at_end, follows,
}
use pipeline_lab.Sim.Pipeline.Advance.{
  Advances, advance_empty, advance-Fetched, advance_last, advance_stalled,
}
use pipeline_lab.Sim.Pipeline.Retire.{retire_flush, retire_stall, retire_full, retire_last}
use pipeline_lab.Sim.Pipeline.Working.{counting, outcome, Working, Working-Commits}

if-two-one-pos : (stall : Bool) → 0 < (if stall then 2 else 1)
if-two-one-pos true = omega arith
if-two-one-pos false = omega arith

-- `n` cycles.
unfoldable pub cycles : ℕ → Program → Pipeline → Result Fault Pipeline
cycles zero program p = ok p
cycles (suc n) program p = cycle program p >>= cycles n program

-- A pipeline a few cycles later holds the state `s`.
abbrev pub Arrives : Program → Pipeline → Interpreter → ℕ → Type 0
Arrives program p s most =
    (n : ℕ) × (n ≤ most) × (p' : Pipeline) × (cycles n program p ≡ ok p') × Matches program p' s

-- With the next instruction in EX, a step of the interpreter is work in progress.
pub step-Working :
    (program : Program) (p : Pipeline) (s s' : Interpreter)
    → Matches program p s
    → Entered program p s.pc
    → AreWords s.regs s.mem
    → step program s ≡ ok (running s')
    → Working program p s s'
step-Working program p s s' m e words stepped =
    let (inst, here, decodes, executes) = step-eq-running program s s' stepped in
    let same = ok-injective (sym decodes ∙ e.fetched.decodes) in
    record {
      paced = m.paced;
      fetching = m.fetching;
      behind = m.behind;
      entered = e;
      words = words;
      executes = subst (λ i. Executes i (counting s) s') same executes;
    }

module _ (program : Program) (all : AllDecode program) where
  -- While nothing is in EX, a cycle brings the next instruction closer to it.
  pub approach :
      (p : Pipeline) (s : Interpreter) (m : Matches program p s) (inst : Instruction)
      → s.pc < code_bytes program
      → decode (word_at program s.pc) ≡ ok inst
      → (Advances program p s (patience m.front - 1) × (0 < patience m.front))
        ⊎ (Entered program p s.pc × Rest program p s.pc × Accounts p 0)
  approach p s m inst in_code decodes = go m.front m.accounts
    where
      fetched :
          (stall : Bool)
          → detect_stall p ≡ stall
          → p.idex.bubble ≡ true
          → Fetched program p.ifid s.pc
          → p.pc ≡ u32 (s.pc + 4)
          → Accounts p 1
          → Advances program p s ((if stall then 2 else 1) - 1)
      fetched true stall no_idex f here acc =
          advance_stalled program p s m.paced m.fetching m.behind no_idex f here stall acc
      fetched false flow no_idex f here acc = elim (Bool-cases (ltb p.pc (code_bytes program))) [
        | inl lt ↦
            let (next, next_decodes) = all p.pc (ground arith) in
            advance-Fetched program p s m.paced m.fetching m.behind next no_idex f here
              (ground arith) next_decodes flow acc
        | inr ge ↦
            advance_last program p s m.paced m.fetching m.behind no_idex f here (ground arith) flow
              acc
      ]

      go :
          (front : Front program p s.pc)
          → Accounts p (wait front)
          → (Advances program p s (patience front - 1) × (0 < patience front))
            ⊎ (Entered program p s.pc × Rest program p s.pc × Accounts p 0)
      go (empty no_idex no_ifid here) acc = inl (
        advance_empty program p s m.paced m.fetching m.behind inst no_idex no_ifid here in_code
            decodes acc,
        omega arith,
      )
      go (one_fetched no_idex f here) acc =
          inl (fetched (detect_stall p) refl no_idex f here acc, if-two-one-pos (detect_stall p))
      go (last e no_ifid _ past) acc = inr (e, at_end no_ifid past, acc)
      go (full e f here) acc = inr (e, follows f here, acc)

  -- The instruction in EX is carried out.
  pub retire :
      (p : Pipeline) (s s' : Interpreter)
      → Working program p s s'
      → Rest program p s.pc
      → Accounts p 0
      → s'.pc < code_bytes program
      → Advances program p s' 2
  retire p s s' w rest acc in_code = elim (Bool-cases (outcome p).flush_younger) [
    | inl flush ↦ retire_flush program p s s' w all rest flush acc
    | inr through ↦ go rest through
  ]
    where
      go : Rest program p s.pc → (outcome p).flush_younger ≡ false → Advances program p s' 2
      go (at_end _ past) through =
          let on_path = (Working-Commits w).sequential through in absurd (omega arith)
      go (follows f here) through = elim (Bool-cases (detect_stall p)) [
        | inl stall ↦ retire_stall program p s s' w f here through acc stall
        | inr flow ↦ elim (Bool-cases (ltb p.pc (code_bytes program))) [
          | inl lt ↦ retire_full program p s s' w f here through acc all flow (ground arith)
          | inr ge ↦ retire_last program p s s' w f here through acc flow (ground arith)
        ]
      ]

-- A new pipeline holds the state of a new interpreter.
pub new-Matches :
    (program : Program) (bytes : ℕ) (forwarding : Bool)
    → Paced program forwarding
    → (m : Matches program (new_pipeline bytes forwarding) (new_interpreter bytes)) × (patience
          m.front
        ≡ 2)
unfolding new_pipeline new_interpreter access written
new-Matches program bytes forwarding paced = (
  record {
    paced = paced;
    fetching = refl;
    behind = record {
      done = empty_latch;
      accessed = refl;
      written_back = refl;
      sixteen = record { sixteen = refl };
      exmem_dest = omega arith;
      memwb_dest = omega arith;
      retired = refl;
    };
    front = empty refl refl refl;
    accounts = (refl, refl, refl);
  },
  refl,
)

pub new_words : (bytes : ℕ) → AreWords (new_interpreter bytes).regs (new_interpreter bytes).mem
unfolding new_interpreter
new_words bytes = record {
  regs_words = All-replicate IsWord 16 0 (omega arith);
  mem_words = All-replicate IsWord (bytes / 4) 0 (omega arith);
}
