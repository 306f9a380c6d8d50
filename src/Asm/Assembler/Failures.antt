-- ===== src/Asm/Assembler/Failures.antt =====
-- When `assemble` of src/asm/assembler.cpp throws, and what.
use mathlib.Core.Path.{subst}
use pipeline_lab.Prelude.{
  ℕ, ◌+◌, ◌≡◌, refl, sym, ap, ◌∙◌, ◌↔◌, ◌⊎◌, List, [], ◌∷◌, ◌++◌, Bool-cases, inl, inr, true, false,
  Result, ok, err, err-injective, ◌>>=◌,
}
use pipeline_lab.Words.{u32}
use pipeline_lab.Isa.Instruction.{Instruction}
use pipeline_lab.Isa.Encoding.{EncodingError, encode}
use pipeline_lab.Asm.Program.{Program, instruction_bytes}
use pipeline_lab.Asm.Statement.{Statement, AssembleError, encoding_failed, is_label}
use pipeline_lab.Asm.Translator.{Symbols, translate}
use pipeline_lab.Asm.Assembler.{symbol_table, assemble_code, assemble}
use pipeline_lab.Asm.Assembler.Duplicates.{Redefines, symbol_table-eq-err_iff}

-- The instruction at an address is translated and encoded.
pub record Fine (symbols : Symbols) (address : ℕ) (s : Statement) : Type 0 where
  pub inst : Instruction
  pub word : ℕ
  pub translated : translate symbols s address ≡ ok inst
  pub encoded : encode inst ≡ ok word

-- The translator refuses the instruction at an address, or the encoder refuses what it makes of it.
pub data Bad (symbols : Symbols) (address : ℕ) (s : Statement) (e : AssembleError) : Type 0 where
  not_translated : translate symbols s address ≡ err e → Bad symbols address s e
  not_encoded :
      (inst : Instruction) (f : EncodingError)
      → translate symbols s address ≡ ok inst
      → encode inst ≡ err f
      → e ≡ record { reason = encoding_failed f; line = s.line }
      → Bad symbols address s e

-- The first bad instruction of the statements, which start at an address, has the exception.
pub data Fails (symbols : Symbols) : ℕ → List Statement → AssembleError → Type 0 where
  here :
      {address : ℕ} {s : Statement} {rest : List Statement} {e : AssembleError}
      → is_label s.kind ≡ false
      → Bad symbols address s e
      → Fails symbols address (s ∷ rest) e
  past_label :
      {address : ℕ} {s : Statement} {rest : List Statement} {e : AssembleError}
      → is_label s.kind ≡ true
      → Fails symbols address rest e
      → Fails symbols address (s ∷ rest) e
  past_code :
      {address : ℕ} {s : Statement} {rest : List Statement} {e : AssembleError}
      → is_label s.kind ≡ false
      → Fine symbols address s
      → Fails symbols (u32 (address + instruction_bytes)) rest e
      → Fails symbols address (s ∷ rest) e

-- The program after one more instruction.
abbrev pushed : Program → Statement → Instruction → ℕ → Program
pushed prog s inst word = record prog {
  words = prog.words ++ word ∷ [];
  instructions = prog.instructions ++ inst ∷ [];
  source_lines = prog.source_lines ++ s.line ∷ [];
}

module _ (symbols : Symbols) where
  -- A round of pass 2 on a label, on a fine instruction and on a bad one.
  label_round :
      (prog : Program) (address : ℕ) (s : Statement) (rest : List Statement)
      → is_label s.kind ≡ true
      → assemble_code symbols prog address (s ∷ rest) ≡ assemble_code symbols prog address rest
  unfolding assemble_code
  label_round prog address s rest k = rw (assemble_code, k) refl

  Fine-round :
      (prog : Program) (address : ℕ) (s : Statement) (rest : List Statement)
      (fine : Fine symbols address s)
      → is_label s.kind ≡ false
      → assemble_code symbols prog address (s ∷ rest)
        ≡ assemble_code symbols
            (pushed prog s fine.inst fine.word)
            (u32 (address + instruction_bytes))
            rest
  unfolding assemble_code
  Fine-round prog address s rest fine k = rw (assemble_code, k, fine.translated, fine.encoded) refl

  Bad-round :
      (prog : Program) (address : ℕ) (s : Statement) (rest : List Statement) (e : AssembleError)
      → is_label s.kind ≡ false
      → Bad symbols address s e
      → assemble_code symbols prog address (s ∷ rest) ≡ err e
  unfolding assemble_code
  Bad-round prog address s rest e k (not_translated h) = rw (assemble_code, k, h) refl
  Bad-round prog address s rest e k (not_encoded inst f made h same) =
      rw (assemble_code, k, made, h) (ap err (sym same))

  -- Every instruction is fine or bad.
  tried :
      (address : ℕ) (s : Statement)
      → Fine symbols address s ⊎ ((e : AssembleError) × Bad symbols address s e)
  tried address s = go (translate symbols s address) refl
    where
      encoded :
          (inst : Instruction)
          → translate symbols s address ≡ ok inst
          → (r : Result EncodingError ℕ) → encode inst ≡ r
          → Fine symbols address s ⊎ ((e : AssembleError) × Bad symbols address s e)
      encoded inst made (ok word) h =
          inl (record { inst = inst; word = word; translated = made; encoded = h })
      encoded inst made (err f) h =
          inr (record { reason = encoding_failed f; line = s.line }, not_encoded inst f made h refl)

      go :
          (r : Result AssembleError Instruction)
          → translate symbols s address ≡ r
          → Fine symbols address s ⊎ ((e : AssembleError) × Bad symbols address s e)
      go (ok inst) h = encoded inst h (encode inst) refl
      go (err e) h = inr (e, not_translated h)

  assemble_code-Fails :
      (statements : List Statement) (prog : Program) (address : ℕ) (e : AssembleError)
      → assemble_code symbols prog address statements ≡ err e
      → Fails symbols address statements e
  unfolding assemble_code
  assemble_code-Fails [] prog address e h = cc
  assemble_code-Fails (s ∷ rest) prog address e h = elim (Bool-cases (is_label s.kind)) [
    | inl k ↦
        past_label k
          (assemble_code-Fails rest prog address e (sym (label_round prog address s rest k) ∙ h))
    | inr k ↦ elim (tried address s) [
      | inl fine ↦ past_code k fine (
          assemble_code-Fails rest (pushed prog s fine.inst fine.word)
            (u32 (address + instruction_bytes)) e (sym (Fine-round prog address s rest fine k) ∙ h))
      | inr (f, bad) ↦
          let same = sym (Bad-round prog address s rest f k bad) ∙ h in
          here k (subst (Bad symbols address s) (err-injective same) bad)
    ]
  ]

  Fails-assemble_code :
      {statements : List Statement} {address : ℕ} {e : AssembleError} (prog : Program)
      → Fails symbols address statements e
      → assemble_code symbols prog address statements ≡ err e
  Fails-assemble_code prog (here k bad) = Bad-round prog _ _ _ _ k bad
  Fails-assemble_code prog (past_label k more) =
      label_round prog _ _ _ k ∙ Fails-assemble_code prog more
  Fails-assemble_code prog (past_code {s = s} k fine more) =
      Fine-round prog _ _ _ fine k ∙ Fails-assemble_code (pushed prog s fine.inst fine.word) more

abbrev start_program : Symbols → Program
start_program symbols = record {
  words = [];
  instructions = [];
  source_lines = [];
  symbols = symbols;
}

-- The assembler throws exactly in two cases. Either a label is defined twice, and then it names the
-- first statement that defines a label again. Or pass 1 ends with a table, and then it throws what
-- the translator throws for the first bad instruction at its address, or what the encoder throws for
-- it, with the line of that instruction.
pub assemble-eq-err_iff :
    (statements : List Statement) (e : AssembleError)
    → (assemble statements ≡ err e) ↔ (
        Redefines [] statements e
        ⊎ ((table : Symbols) × (symbol_table [] 0 statements ≡ ok table)
            × Fails table 0 statements e))
unfolding assemble
assemble-eq-err_iff statements e = (λ h. go (symbol_table [] 0 statements) refl h, back)
  where
    code : Symbols → Result AssembleError Program
    code symbols = assemble_code symbols (start_program symbols) 0 statements

    go :
        (r : Result AssembleError Symbols)
        → symbol_table [] 0 statements ≡ r
        → assemble statements ≡ err e
        → Redefines [] statements e
          ⊎ ((table : Symbols) × (symbol_table [] 0 statements ≡ ok table)
              × Fails table 0 statements e)
    go (ok table) made h = inr (
      table,
      made,
      assemble_code-Fails table statements (start_program table) 0 e
          (sym (ap (λ r. r >>= code) made) ∙ h),
    )
    go (err f) thrown h =
        let same = err-injective (sym (ap (λ r. r >>= code) thrown) ∙ h) in
        inl ((symbol_table-eq-err_iff statements e).0 (thrown ∙ ap err same))

    back :
        Redefines [] statements e
          ⊎ ((table : Symbols) × (symbol_table [] 0 statements ≡ ok table)
              × Fails table 0 statements e)
        → assemble statements ≡ err e
    back (inl r) = ap (λ r. r >>= code) ((symbol_table-eq-err_iff statements e).1 r)
    back (inr (table, made, fails)) =
        ap (λ r. r >>= code) made ∙ Fails-assemble_code table (start_program table) fails
