-- ===== src/Asm/Assembler/Duplicates.antt =====
-- Pass 1 of `assemble`, src/asm/assembler.cpp: the labels that it refuses.
use mathlib.Core.Path.{subst}
use pipeline_lab.Prelude.{
  true-not-false, ℕ, ◌+◌, ◌≡◌, refl, sym, ap, ◌∙◌, ◌↔◌, ◌⊎◌, List, [], ◌∷◌, ◌++◌, Bool, Bool-cases,
  ◌||◌, inl, inr, true, false, some, none, err,
}
use pipeline_lab.Words.{u32}
use pipeline_lab.Asm.Program.{Text, instruction_bytes}
use pipeline_lab.Asm.Statement.{
  Statement, AssembleError, duplicate_label, is_label, find_key, same_text,
}
use pipeline_lab.Asm.Translator.{Symbols}
use pipeline_lab.Asm.Assembler.{symbol_table}

-- Whether the name is among the names.
unfoldable pub among : Text → List Text → Bool
unfolding same_text
among name [] = false
among name (n ∷ names) = same_text n name || among name names

abbrev pub labels : List Statement → List Text
labels [] = []
labels (s ∷ rest) = elim (is_label s.kind) [ true ↦ s.name ∷ labels rest | false ↦ labels rest ]

-- None of the names is a known one or repeats one before it.
abbrev pub Fresh : List Text → List Text → Type 0
Fresh known [] = Unit
Fresh known (n ∷ names) = (among n known ≡ false) × Fresh (n ∷ known) names

abbrev keys : Symbols → List Text
keys [] = []
keys ((name, _) ∷ rest) = name ∷ keys rest

find_key-among :
    (symbols : Symbols) (name : Text)
    → ((a : ℕ) × (find_key symbols name ≡ some a) × (among name (keys symbols) ≡ true))
      ⊎ ((find_key symbols name ≡ none) × (among name (keys symbols) ≡ false))
unfolding find_key among
find_key-among [] name = inr (refl, refl)
find_key-among ((key, a) ∷ rest) name = elim (Bool-cases (same_text key name)) [
  | inl same ↦ inl (a, rw same refl, rw same refl)
  | inr other ↦ elim (find_key-among rest name) [
    | inl (b, found, there) ↦ inl (b, rw other found, rw other there)
    | inr (missing, absent) ↦ inr (rw other missing, rw other absent)
  ]
]

-- The statement `again` defines a label that a statement before it has defined, and none of the
-- statements before it does so.
pub record Redefines (known : List Text) (statements : List Statement) (e : AssembleError)
    : Type 0 where
  pub before : List Statement
  pub again : Statement
  pub after : List Statement
  pub parts : statements ≡ before ++ again ∷ after
  pub fresh : Fresh known (labels before)
  pub defines : is_label again.kind ≡ true
  pub defined : (among again.name known ≡ true) ⊎ (among again.name (labels before) ≡ true)
  pub error : e ≡ record { reason = duplicate_label again.name; line = again.line }

-- A name that is known, or among the names, with one more name on either side.
among_moves :
    (n x : Text) (known names : List Text)
    → ((among n (x ∷ known) ≡ true) ⊎ (among n names ≡ true))
      ↔ ((among n known ≡ true) ⊎ (among n (x ∷ names) ≡ true))
unfolding among
among_moves n x known names = go (same_text x n) (among n known) (among n names)
  where
    go : (a b c : Bool) → (((a || b) ≡ true) ⊎ (c ≡ true)) ↔ ((b ≡ true) ⊎ ((a || c) ≡ true))
    go true b c = (λ _. inr refl, λ _. inl refl)
    go false b c = (λ h. h, λ h. h)

labels-code :
    (s : Statement) (rest : List Statement)
    → is_label s.kind ≡ false
    → labels (s ∷ rest) ≡ labels rest
labels-code s rest k = rw (k, labels) refl

labels-label :
    (s : Statement) (rest : List Statement)
    → is_label s.kind ≡ true
    → labels (s ∷ rest) ≡ s.name ∷ labels rest
labels-label s rest k = rw (k, labels) refl

symbol_table-Redefines :
    (statements : List Statement) (symbols : Symbols) (address : ℕ) (e : AssembleError)
    → symbol_table symbols address statements ≡ err e
    → Redefines (keys symbols) statements e
unfolding symbol_table
symbol_table-Redefines [] symbols address e h = cc
symbol_table-Redefines (s ∷ rest) symbols address e h = elim (Bool-cases (is_label s.kind)) [
  | inl k ↦ elim (find_key-among symbols s.name) [
    | inl (a, found, there) ↦ record {
      before = [];
      again = s;
      after = rest;
      parts = refl;
      fresh = tt;
      defines = k;
      defined = inl there;
      error = let thrown = rw (k, symbol_table, found) at h in cc;
    }
    | inr (missing, absent) ↦
        let later =
          symbol_table-Redefines rest ((s.name, address) ∷ symbols) address e
            (rw (k, symbol_table, missing) at h) in
        record {
          before = s ∷ later.before;
          again = later.again;
          after = later.after;
          parts = ap (λ t. s ∷ t) later.parts;
          fresh =
              subst (Fresh (keys symbols)) (sym (labels-label s later.before k))
                (absent, later.fresh);
          defines = later.defines;
          defined =
              subst
                (λ names.
                  (among later.again.name (keys symbols) ≡ true)
                  ⊎ (among later.again.name names ≡ true))
                (sym (labels-label s later.before k))
                ((among_moves later.again.name s.name (keys symbols) (labels later.before)).0
                  later.defined);
          error = later.error;
        }
  ]
  | inr k ↦
      let later =
        symbol_table-Redefines rest symbols (u32 (address + instruction_bytes)) e
          (rw (k, symbol_table) at h) in
      let same = sym (labels-code s later.before k) in
      record {
        before = s ∷ later.before;
        again = later.again;
        after = later.after;
        parts = ap (λ t. s ∷ t) later.parts;
        fresh = subst (Fresh (keys symbols)) same later.fresh;
        defines = later.defines;
        defined =
            subst
              (λ names.
                (among later.again.name (keys symbols) ≡ true)
                ⊎ (among later.again.name names ≡ true))
              same later.defined;
        error = later.error;
      }
]

-- The other way round, by the statements before the refused one.
refused :
    (before : List Statement) (again : Statement) (after : List Statement) (symbols : Symbols)
    (address : ℕ)
    → Fresh (keys symbols) (labels before)
    → is_label again.kind ≡ true
    → (among again.name (keys symbols) ≡ true) ⊎ (among again.name (labels before) ≡ true)
    → symbol_table symbols address (before ++ again ∷ after)
      ≡ err (record { reason = duplicate_label again.name; line = again.line })
unfolding symbol_table among
refused [] again after symbols address fresh k (inr there) = absurd (true-not-false (sym there))
refused [] again after symbols address fresh k (inl there) =
    elim (find_key-among symbols again.name) [
      | inl (a, found, _) ↦ rw (symbol_table, k, found) refl
      | inr (_, absent) ↦ absurd (true-not-false (sym there ∙ absent))
    ]
refused (s ∷ before) again after symbols address fresh k defined =
    elim (Bool-cases (is_label s.kind)) [
      | inl l ↦
          let (new, others) = subst (Fresh (keys symbols)) (labels-label s before l) fresh in
          elim (find_key-among symbols s.name) [
            | inl (_, _, there) ↦ absurd (true-not-false (sym there ∙ new))
            | inr (missing, _) ↦
                rw (symbol_table, l, missing)
                  (refused before again after ((s.name, address) ∷ symbols) address others k (
                    (among_moves again.name s.name (keys symbols) (labels before)).1 (
                      subst
                        (λ names.
                          (among again.name (keys symbols) ≡ true)
                          ⊎ (among again.name names ≡ true))
                        (labels-label s before l) defined)))
          ]
      | inr l ↦
          let same = labels-code s before l in
          rw (symbol_table, l)
            (refused before again after symbols (u32 (address + instruction_bytes))
              (subst (Fresh (keys symbols)) same fresh) k
              (subst
                (λ names.
                  (among again.name (keys symbols) ≡ true) ⊎ (among again.name names ≡ true))
                same defined))
    ]

-- Pass 1 throws exactly if a label is defined twice: then the first statement that defines a label
-- again is the one that it names.
pub symbol_table-eq-err_iff :
    (statements : List Statement) (e : AssembleError)
    → (symbol_table [] 0 statements ≡ err e) ↔ Redefines [] statements e
symbol_table-eq-err_iff statements e = (
  symbol_table-Redefines statements [] 0 e,
  λ r.
      ap (symbol_table [] 0) r.parts
      ∙ refused r.before r.again r.after [] 0 r.fresh r.defines r.defined
      ∙ ap err (sym r.error),
)
