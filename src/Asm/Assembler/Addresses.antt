-- ===== src/Asm/Assembler/Addresses.antt =====
-- Pass 1 of `assemble`, src/asm/assembler.cpp: the addresses of the labels.
use mathlib.Core.Path.{subst}
use pipeline_lab.Prelude.{
  ℕ, ◌+◌, ◌*◌, ◌≡◌, refl, sym, ap, ◌∙◌, arith, List, [], ◌∷◌, ◌++◌, length, Bool-cases, inl, inr,
  true, Option-cases, some, none, ok, if-true, if-false, ok-injective,
}
use pipeline_lab.Words.{u32, IsWord}
use pipeline_lab.Asm.Program.{Text, instruction_bytes}
use pipeline_lab.Asm.Statement.{Statement, is_label, find_key, same_text}
use pipeline_lab.Asm.Translator.{Symbols}
use pipeline_lab.Asm.Assembler.{symbol_table}
use pipeline_lab.Asm.Assembler.Code.{instruction_lines}

same_text-eq : (a b : Text) → same_text a b ≡ true → a ≡ b
unfolding same_text
same_text-eq [] [] h = refl
same_text-eq [] (_ ∷ _) h = absurd (ground arith)
same_text-eq (_ ∷ _) [] h = absurd (ground arith)
same_text-eq (x ∷ a) (y ∷ b) h =
    let same : x ≡ y = ground arith in
    let rest : same_text a b ≡ true = ground arith in let tail = same_text-eq a b rest in cc

same_text_refl : (a : Text) → same_text a a ≡ true
unfolding same_text
same_text_refl [] = refl
same_text_refl (x ∷ a) = ground (arith, same_text_refl a)

-- A new label hides no other one.
find_key-fresh :
    (symbols : Symbols) (name other : Text) (address : ℕ) {found : ℕ}
    → find_key symbols name ≡ none
    → find_key symbols other ≡ some found
    → find_key ((name, address) ∷ symbols) other ≡ some found
unfolding find_key
find_key-fresh symbols name other address fresh there = elim (Bool-cases (same_text name other)) [
  | inl same ↦
      let equal = same_text-eq name other same in
      let clash = sym fresh ∙ ap (find_key symbols) equal ∙ there in absurd (ground arith)
  | inr apart ↦ if-false _ _ apart ∙ there
]

find_key-head :
    (symbols : Symbols) (name : Text) (address : ℕ)
    → find_key ((name, address) ∷ symbols) name ≡ some address
unfolding find_key
find_key-head symbols name address = if-true _ _ (same_text_refl name)

-- Pass 1 keeps the labels it has met.
symbol_table-keeps :
    (statements : List Statement) (symbols : Symbols) (address : ℕ) (name : Text) {found : ℕ}
    {table : Symbols}
    → symbol_table symbols address statements ≡ ok table
    → find_key symbols name ≡ some found
    → find_key table name ≡ some found
unfolding symbol_table
symbol_table-keeps [] symbols address name h there = rw⁻¹ (ok-injective h) there
symbol_table-keeps (s ∷ rest) symbols address name h there = elim (Bool-cases (is_label s.kind)) [
  | inl k ↦ elim (Option-cases (find_key symbols s.name)) [
    | inl fresh ↦
        symbol_table-keeps rest ((s.name, address) ∷ symbols) address name
          (rw (k, symbol_table, fresh) at h)
          (find_key-fresh symbols s.name name address fresh there)
    | inr (old, met) ↦ let refused = rw (k, symbol_table, met) at h in absurd (ground arith)
  ]
  | inr k ↦
      symbol_table-keeps rest symbols (u32 (address + instruction_bytes)) name
        (rw (k, symbol_table) at h) there
]

-- Pass 1 gives every label the address of the instruction after it: the start address and four bytes
-- for each instruction before the label, modulo 2 ^ 32.
pub find_key-symbol_table :
    (before after : List Statement) (l : Statement) (symbols : Symbols) (address : ℕ)
    {table : Symbols}
    → IsWord address
    → is_label l.kind ≡ true
    → symbol_table symbols address (before ++ l ∷ after) ≡ ok table
    → find_key table l.name ≡ some (u32 (address + 4 * length (instruction_lines before)))
unfolding symbol_table
find_key-symbol_table [] after l symbols address {table} small k h =
    elim (Option-cases (find_key symbols l.name)) [
      | inl fresh ↦
          let here : u32 (address + 4 * 0) ≡ address = omega arith in
          let kept =
            symbol_table-keeps after ((l.name, address) ∷ symbols) address l.name
              (rw (k, symbol_table, fresh) at h) (find_key-head symbols l.name address) in
          kept ∙ ap some (sym here)
      | inr (old, met) ↦ let refused = rw (k, symbol_table, met) at h in absurd (ground arith)
    ]
find_key-symbol_table (s ∷ before) after l symbols address {table} small k h =
    elim (Bool-cases (is_label s.kind)) [
      | inl c ↦ elim (Option-cases (find_key symbols s.name)) [
        | inl fresh ↦
            let later =
              find_key-symbol_table before after l ((s.name, address) ∷ symbols) address small k
                (rw (c, symbol_table, fresh) at h) in
            subst (λ n. find_key table l.name ≡ some (u32 (address + 4 * n)))
              (ap length (rw (c, instruction_lines))) later
        | inr (old, met) ↦ let refused = rw (c, symbol_table, met) at h in absurd (ground arith)
      ]
      | inr c ↦
          let later =
            find_key-symbol_table before after l symbols (u32 (address + instruction_bytes))
              (omega arith) k (rw (c, symbol_table) at h) in
          let opened : instruction_lines (s ∷ before) ≡ s.line ∷ instruction_lines before =
            rw (c, instruction_lines) in
          let counted : length (instruction_lines (s ∷ before))
              ≡ length (instruction_lines before) + 1 =
            ap length opened ∙ omega arith in
          later ∙ ap some (omega (arith, counted))
    ]
