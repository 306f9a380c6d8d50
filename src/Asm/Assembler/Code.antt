-- ===== src/Asm/Assembler/Code.antt =====
-- Pass 2 of `assemble`, src/asm/assembler.cpp: the words, the instructions and the lines of the
-- assembled program.
use mathlib.Core.Path.{subst}
use mathlib.Core.List.{append_assoc, append-nil}
use pipeline_lab.Prelude.{
  ℕ, ◌≡◌, ◌+◌, refl, sym, ap, ◌∙◌, arith, List, [], ◌∷◌, ◌++◌, length, length-append, All,
  Bool-cases, inl, inr, true, false, Result, ok, err, >>=-eq-ok, ok-injective,
}
use pipeline_lab.Isa.Opcode.{is_ret}
use pipeline_lab.Isa.Instruction.{Instruction}
use pipeline_lab.Isa.Encoding.{EncodingError, encode, decode}
use pipeline_lab.Isa.Encoding.RoundTrip.{decode-encode}
use pipeline_lab.Sim.Pipeline.Fetching.{Decodes}
use pipeline_lab.Asm.Program.{Program}
use pipeline_lab.Asm.Statement.{Statement, is_label}
use pipeline_lab.Asm.Translator.{Symbols, translate}
use pipeline_lab.Asm.Translator.Laws.{translate-IsCanonical}
use pipeline_lab.Asm.Assembler.{symbol_table, assemble_code, or_assemble_error, assemble}

pub record Code (w : ℕ) (inst : Instruction) : Type 0 where
  pub coded : encode inst ≡ ok w
  pub decodes : decode w ≡ ok inst
  pub plain_ret : is_ret inst.op ≡ true → inst.target ≡ 0

-- Word by word, the words are the codes of the instructions and decode to them, and a RET has no
-- target.
pub data Encodes : List ℕ → List Instruction → Type 0 where
  no_words : Encodes [] []
  one_word :
      {w : ℕ} {inst : Instruction} {ws : List ℕ} {is : List Instruction}
      → Code w inst
      → Encodes ws is
      → Encodes (w ∷ ws) (inst ∷ is)

Encodes-append :
    {ws : List ℕ} {is : List Instruction} (w : ℕ) (inst : Instruction)
    → Encodes ws is
    → Code w inst
    → Encodes (ws ++ w ∷ []) (is ++ inst ∷ [])
Encodes-append w inst no_words e = one_word e no_words
Encodes-append w inst (one_word d more) e = one_word d (Encodes-append w inst more e)

-- The lines of the instructions, in order.
abbrev pub instruction_lines : List Statement → List ℕ
instruction_lines [] = []
instruction_lines (s ∷ rest) = elim (is_label s.kind) [
  | true ↦ instruction_lines rest
  | false ↦ s.line ∷ instruction_lines rest
]

or_assemble_error-eq-ok :
    (line : ℕ) (r : Result EncodingError ℕ) {w : ℕ} → or_assemble_error line r ≡ ok w → r ≡ ok w
or_assemble_error-eq-ok line (ok a) h = ap ok (ok-injective h)
or_assemble_error-eq-ok line (err e) h = cc

translated-Code :
    (symbols : Symbols) (s : Statement) (address : ℕ) {inst : Instruction} {w : ℕ}
    → translate symbols s address ≡ ok inst
    → encode inst ≡ ok w
    → Code w inst
translated-Code symbols s address {inst} {w} made coded =
    let canonical = translate-IsCanonical symbols s address made in
    record {
      coded = coded;
      decodes = decode-encode inst w canonical.imm_word coded ∙ ap ok canonical.rest_zero;
      plain_ret = canonical.plain_ret;
    }

-- What pass 2 adds to a program, for instructions on the given lines.
pub record Extends (prog final : Program) (lines : List ℕ) : Type 0 where
  pub encodes : Encodes final.words final.instructions
  pub source : final.source_lines ≡ prog.source_lines ++ lines
  pub symbols : final.symbols ≡ prog.symbols
  pub size : length final.words ≡ length prog.words + length lines

-- Pass 2 extends a program whose words decode to its instructions by one word for each instruction
-- of the statements, on the instruction's line, and the words still decode to the instructions.
pub assemble_code-Extends :
    (symbols : Symbols) (statements : List Statement) (prog : Program) (address : ℕ)
    {final : Program}
    → Encodes prog.words prog.instructions
    → assemble_code symbols prog address statements ≡ ok final
    → Extends prog final (instruction_lines statements)
unfolding assemble_code
assemble_code-Extends symbols [] prog address pairs h =
    subst (λ f. Extends prog f []) (ok-injective h)
      (record {
        encodes = pairs;
        source = sym (append-nil prog.source_lines);
        symbols = refl;
        size = omega arith;
      })
assemble_code-Extends symbols (s ∷ rest) prog address {final} pairs h =
    elim (Bool-cases (is_label s.kind)) [
      | inl k ↦
          subst (Extends prog final) (rw (k, instruction_lines))
            (assemble_code-Extends symbols rest prog address pairs (rw (k, assemble_code) at h))
      | inr k ↦
          let (inst, made, h0) =
            >>=-eq-ok (translate symbols s address) _ (rw (k, assemble_code) at h) in
          let (w, coded, h1) = >>=-eq-ok (or_assemble_error s.line (encode inst)) _ h0 in
          let code =
            translated-Code symbols s address made
              (or_assemble_error-eq-ok s.line (encode inst) coded) in
          let later =
            assemble_code-Extends symbols rest _ _ (Encodes-append w inst pairs code) h1 in
          subst (Extends prog final) (rw (k, instruction_lines)) (record {
            encodes = later.encodes;
            source =
                later.source
                ∙ append_assoc prog.source_lines (s.line ∷ []) (instruction_lines rest);
            symbols = later.symbols;
            size = omega (arith, later.size, length-append prog.words (w ∷ []));
          })
    ]

pub Encodes-Decodes : {ws : List ℕ} {is : List Instruction} → Encodes ws is → All Decodes ws
Encodes-Decodes no_words = tt
Encodes-Decodes (one_word {inst = inst} c more) = ((inst, c.decodes), Encodes-Decodes more)

-- An assembled program has one word for each instruction of the source, which is the code of an
-- instruction and decodes to it, and the line that the instruction stands on. The instruction of a
-- RET has no target.
pub assemble-Encodes :
    (statements : List Statement) (prog : Program)
    → assemble statements ≡ ok prog
    → Encodes prog.words prog.instructions
      × (prog.source_lines ≡ instruction_lines statements)
      × (length prog.words ≡ length (instruction_lines statements))
unfolding assemble
assemble-Encodes statements prog h =
    let (symbols, _, coded) = >>=-eq-ok (symbol_table [] 0 statements) _ h in
    let extends = assemble_code-Extends symbols statements _ 0 no_words coded in
    (extends.encodes, extends.source, omega (arith, extends.size))
