-- ===== src/Sim/Interpreter/Runs.antt =====
-- The loop of `Interpreter::run`, src/sim/interpreter.cpp, seen from its result.
use pipeline_lab.Prelude.{ℕ, zero, suc, ◌+◌, ◌≡◌, ap, ◌∙◌, arith, refl, ◌<◌, ok, err, >>=-eq-ok}
use pipeline_lab.Sim.Fault.{step_limit}
use pipeline_lab.Asm.Program.{Program}
use pipeline_lab.Sim.Interpreter.{Interpreter, Progress, running, returned, step, run}
use pipeline_lab.Sim.Interpreter.Semantics.{step-eq-running, step-eq-returned, Executes-retired}

-- How a run that ends begins.
pub data Begins (program : Program) (k : ℕ) (s e : Interpreter) : Type 0 where
  goes :
      (s' : Interpreter)
      → step program s ≡ ok (running s')
      → run k program s' ≡ ok e
      → Begins program k s e
  ends : step program s ≡ ok (returned e) → Begins program k s e

pub run-Begins :
    (program : Program) (k : ℕ) (s e : Interpreter)
    → run (suc k) program s ≡ ok e
    → Begins program k s e
unfolding run
run-Begins program k s e h =
    let (progress, stepped, rest) = >>=-eq-ok (step program s) _ h in go progress stepped rest
  where
    go :
        (progress : Progress)
        → step program s ≡ ok progress
        → (elim progress [ running s' ↦ run k program s' | returned s' ↦ ok s' ]) ≡ ok e
        → Begins program k s e
    go (running s') stepped rest = goes s' stepped rest
    go (returned s') stepped rest = ends (ground arith)

pub run_goes :
    (program : Program) (n : ℕ) (s s' : Interpreter)
    → step program s ≡ ok (running s')
    → run (suc n) program s ≡ run n program s'
unfolding run
run_goes program n s s' stepped = rw stepped

pub run_ends :
    (program : Program) (n : ℕ) (s e : Interpreter)
    → step program s ≡ ok (returned e)
    → run (suc n) program s ≡ ok e
unfolding run
run_ends program n s e stepped = rw stepped

-- A run that ends needs exactly as many steps as it counts instructions: with those it ends the
-- same, and with fewer it throws that the step limit is exceeded.
pub run_steps :
    (program : Program) (k : ℕ) (s e : Interpreter)
    → run k program s ≡ ok e
    → (n : ℕ) × (e.retired ≡ s.retired + n)
      × (run n program s ≡ ok e)
      × ((m : ℕ) → m < n → run m program s ≡ err step_limit)
unfolding run
run_steps program zero s e h = cc
run_steps program (suc k) s e h = go (run-Begins program k s e h) (λ s'. run_steps program k s' e)
  where
    Takes : Interpreter → Type 0
    Takes s0 =
        (n : ℕ) × (e.retired ≡ s0.retired + n)
        × (run n program s0 ≡ ok e)
        × ((m : ℕ) → m < n → run m program s0 ≡ err step_limit)

    fewer :
        (s' : Interpreter) (n : ℕ)
        → step program s ≡ ok (running s')
        → ((m : ℕ) → m < n → run m program s' ≡ err step_limit)
        → (m : ℕ) → m < suc n
        → run m program s ≡ err step_limit
    fewer s' n stepped early zero lt = refl
    fewer s' n stepped early (suc m) lt = run_goes program m s s' stepped ∙ early m (omega arith)

    go : Begins program k s e → ((s' : Interpreter) → run k program s' ≡ ok e → Takes s') → Takes s
    go (goes s' stepped rest) ih =
        let (n, count, again, early) = ih s' rest in
        let one = Executes-retired (step-eq-running program s s' stepped).3 in
        (suc n, omega arith, run_goes program n s s' stepped ∙ again, fewer s' n stepped early)
    go (ends stepped) ih =
        let same = (step-eq-returned program s e stepped).5 in
        (1, ap (λ t. t.retired) same, run_ends program 0 s e stepped, none_earlier)
      where
        none_earlier : (m : ℕ) → m < 1 → run m program s ≡ err step_limit
        none_earlier zero lt = refl
        none_earlier (suc m) lt = absurd (omega arith)
