-- ===== src/Sim/Pipeline/Trace/Apart.antt =====
-- Trace events that no cell of a diagram shares: no two of them are of the same instruction in the
-- same cycle.
use pipeline_lab.Prelude.{
  ℕ, ◌≤◌, ◌<◌, ◌≡◌, ◌≢◌, refl, sym, ◌∙◌, arith, List, [], ◌∷◌, ◌++◌, All, All-append, All-weaken,
  Bool, true, false, if◌then◌else◌,
}
use pipeline_lab.Prelude.Int.{ℤ, pos}
use pipeline_lab.Sim.Pipeline.State.{Latch, TraceEvent, Stage}
use pipeline_lab.Sim.Pipeline.Stages.{event}

abbrev pub Differ : TraceEvent → TraceEvent → Type 0
Differ e e' = e.id ≡ e'.id → e.cycle ≢ e'.cycle

abbrev pub Apart : List TraceEvent → Type 0
Apart [] = Unit
Apart (e ∷ es) = All (Differ e) es × Apart es

-- The id is a number from `lo` on below `hi`.
abbrev pub IdIn : ℕ → ℕ → ℤ → Type 0
IdIn lo hi id = (k : ℕ) × (id ≡ pos k) × (lo ≤ k) × (k < hi)

-- The events of one cycle `c`, of instructions from `lo` on below `hi`.
abbrev pub OfCycle : ℕ → ℕ → ℕ → TraceEvent → Type 0
OfCycle c lo hi e = (e.cycle ≡ c) × IdIn lo hi e.id

pub Apart-append :
    (xs ys : List TraceEvent)
    → Apart xs
    → Apart ys
    → All (λ e. All (Differ e) ys) xs
    → Apart (xs ++ ys)
Apart-append [] ys h k cross = k
Apart-append (x ∷ xs) ys h k cross =
    (All-append (Differ x) xs ys h.0 cross.0, Apart-append xs ys h.1 k cross.1)

pos_injective : {a b : ℕ} → pos a ≡ pos b → a ≡ b
pos_injective h = cc

id-Differ : (lo m hi : ℕ) (e e' : TraceEvent) → IdIn m hi e.id → IdIn lo m e'.id → Differ e e'
id-Differ lo m hi e e' (k, at, low, high) (k', at', low', high') same =
    let same_number = pos_injective (sym at ∙ same ∙ at') in absurd (omega arith)

-- Events of younger instructions, then those of older ones, of one cycle.
pub OfCycle-append :
    (c lo m hi : ℕ) (xs ys : List TraceEvent)
    → lo ≤ m
    → m ≤ hi
    → All (OfCycle c m hi) xs × Apart xs
    → All (OfCycle c lo m) ys × Apart ys
    → All (OfCycle c lo hi) (xs ++ ys) × Apart (xs ++ ys)
OfCycle-append c lo m hi xs ys low high (hx, ax) (hy, ay) = (
  All-append (OfCycle c lo hi) xs ys
      (All-weaken (OfCycle c m hi) (OfCycle c lo hi) xs
        (λ e (at, (k, id, l, h)). (at, (k, id, omega arith, omega arith))) hx)
      (All-weaken (OfCycle c lo m) (OfCycle c lo hi) ys
        (λ e (at, (k, id, l, h)). (at, (k, id, omega arith, omega arith))) hy),
  Apart-append xs ys ax ay (
      All-weaken (OfCycle c m hi) (λ e. All (Differ e) ys) xs
        (λ e he.
          All-weaken (OfCycle c lo m) (Differ e) ys (λ e' he'. id-Differ lo m hi e e' he.1 he'.1)
            hy)
        hx),
)

-- The event of a latch.
pub event-OfCycle :
    (l : Latch) (c lo hi : ℕ) (stage : Stage)
    → (l.bubble ≡ false → IdIn lo hi l.id)
    → All (OfCycle c lo hi) (event l c stage) × Apart (event l c stage)
event-OfCycle l c lo hi stage h = go l.bubble h
  where
    go :
        (b : Bool)
        → (b ≡ false → IdIn lo hi l.id)
        → All
            (OfCycle c lo hi)
            (if b then [] else record { id = l.id; cycle = c; stage = stage } ∷ [])
          × Apart (if b then [] else record { id = l.id; cycle = c; stage = stage } ∷ [])
    go true k = (tt, tt)
    go false k = (((refl, k refl), tt), (tt, tt))
