-- ===== src/Asm/Assembler.antt =====
-- The two passes of `assemble`, src/asm/assembler.cpp.
pub mod Addresses
pub mod Duplicates
pub mod Failures
pub mod Code
pub mod Runs
use pipeline_lab.Prelude.{
  ℕ, ◌+◌, List, [], ◌∷◌, ◌++◌, Bool, true, false, Option, none, some, Result, ok, err, ◌>>=◌,
}
use pipeline_lab.Words.{u32}
use pipeline_lab.Isa.Encoding.{EncodingError, encode}
use pipeline_lab.Asm.Program.{Program, instruction_bytes}
use pipeline_lab.Asm.Statement.{
  Statement, is_label, AssembleError, fail, duplicate_label, encoding_failed, find_key,
}
use pipeline_lab.Asm.Translator.{Symbols, translate}

-- Pass 1: the address of every label.
unfoldable pub symbol_table : Symbols → ℕ → List Statement → Result AssembleError Symbols
symbol_table symbols address [] = ok symbols
symbol_table symbols address (s ∷ rest) = elim (is_label s.kind) [
  | true ↦ elim (find_key symbols s.name) [
    | some _ ↦ fail s.line (duplicate_label s.name)
    | none ↦ symbol_table ((s.name, address) ∷ symbols) address rest
  ]
  | false ↦ symbol_table symbols (u32 (address + instruction_bytes)) rest
]

-- The encoder's exception, rethrown with the line.
abbrev pub or_assemble_error {ℓ} :
    {A : Type ℓ} → ℕ → Result EncodingError A → Result AssembleError A
or_assemble_error line (ok a) = ok a
or_assemble_error line (err e) = fail line (encoding_failed e)

-- Pass 2: every instruction translated, encoded and appended to the program.
unfoldable pub assemble_code : Symbols → Program → ℕ → List Statement → Result AssembleError Program
assemble_code symbols prog address [] = ok prog
assemble_code symbols prog address (s ∷ rest) = elim (is_label s.kind) [
  | true ↦ assemble_code symbols prog address rest
  | false ↦ do
    inst ← translate symbols s address
    word ← or_assemble_error s.line (encode inst)
    assemble_code symbols
        (record prog {
          words = prog.words ++ word ∷ [];
          instructions = prog.instructions ++ inst ∷ [];
          source_lines = prog.source_lines ++ s.line ∷ [];
        })
        (u32 (address + instruction_bytes)) rest
]

unfoldable pub assemble : List Statement → Result AssembleError Program
unfolding symbol_table assemble_code
assemble statements = do
  symbols ← symbol_table [] 0 statements
  assemble_code symbols
      (record { words = []; instructions = []; source_lines = []; symbols = symbols }) 0 statements
