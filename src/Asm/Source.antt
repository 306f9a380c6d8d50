-- ===== src/Asm/Source.antt =====
-- `assemble` on source text, src/asm/assembler.cpp: the lexer, the parser and the two passes.
use pipeline_lab.Prelude.{◌≡◌, refl, List, All, Result, ok, err, ◌>>=◌, Yields, Yields->>=}
use pipeline_lab.Asm.Program.{Program, Text}
use pipeline_lab.Asm.Statement.{Statement, AssembleError}
use pipeline_lab.Asm.Lexer.{LexError, tokenize}
use pipeline_lab.Asm.Lexer.Ends.{Refused, Closed, tokenize-Yields}
use pipeline_lab.Asm.Parser.{ParseError, parse}
use pipeline_lab.Asm.Parser.Outcome.{Thrown, RegistersExist, parse-Yields}
use pipeline_lab.Asm.Assembler.{assemble}
use pipeline_lab.Asm.Assembler.Code.{Encodes, assemble-Encodes}

-- What it can throw.
pub data SourceError : Type 0 where
  lex_error : LexError → SourceError
  parse_error : ParseError → SourceError
  assemble_error : AssembleError → SourceError

abbrev pub or_throw {ℓ κ} :
    {E : Type ℓ} {A : Type κ} → (E → SourceError) → Result E A → Result SourceError A
or_throw wrap (ok a) = ok a
or_throw wrap (err e) = err (wrap e)

unfoldable pub assemble_source : Text → Result SourceError Program
assemble_source source = do
  tokens ← or_throw lex_error (tokenize source)
  statements ← or_throw parse_error (parse tokens)
  or_throw assemble_error (assemble statements)

-- An exception of the code.
abbrev pub Raised : SourceError → Type 0
Raised (lex_error e) = Refused e
Raised (parse_error e) = Thrown e
Raised (assemble_error e) = Unit

or_throw-Yields {ℓ κ} :
    {E : Type ℓ} {A : Type κ} (F : E → Type 0) (P : A → Type 0) (wrap : E → SourceError)
    (r : Result E A)
    → ((e : E) → F e → Raised (wrap e))
    → Yields F P r
    → Yields Raised P (or_throw wrap r)
or_throw-Yields F P wrap (ok a) raised h = h
or_throw-Yields F P wrap (err e) raised h = raised e h

assemble-Yields :
    (statements : List Statement) (r : Result AssembleError Program)
    → assemble statements ≡ r
    → Yields (λ _. Unit) (λ p. Encodes p.words p.instructions) r
assemble-Yields statements (ok program) h = (assemble-Encodes statements program h).0
assemble-Yields statements (err e) h = tt

-- The assembler ends on every source: with a program whose words decode to its instructions, or with
-- one of the exceptions of the lexer, the parser and the passes.
pub assemble_source-Yields :
    (source : Text) → Yields Raised (λ p. Encodes p.words p.instructions) (assemble_source source)
unfolding assemble_source
assemble_source-Yields source =
    Yields->>= Raised Closed _ (or_throw lex_error (tokenize source)) _
      (or_throw-Yields Refused Closed lex_error (tokenize source) (λ e h. h)
        (tokenize-Yields source))
      λ tokens _.
        Yields->>= Raised (All (λ s. RegistersExist s.operands)) _
          (or_throw parse_error (parse tokens)) _
          (or_throw-Yields Thrown _ parse_error (parse tokens) (λ e h. h) (parse-Yields tokens))
          λ statements _.
            or_throw-Yields (λ _. Unit) _ assemble_error (assemble statements) (λ e _. tt)
              (assemble-Yields statements (assemble statements) refl)
