-- ===== src/Asm/Listing/Assembled.antt =====
-- The whole of src/asm on the text that `disassemble` of src/isa/instruction.cpp prints.
use mathlib.Core.List.{append_assoc, append-nil}
use pipeline_lab.Prelude.{
  ℕ, ◌+◌, ◌≡◌, refl, sym, ap, ◌∙◌, List, [], ◌∷◌, ◌++◌, map, All, false, ok, ◌>>=◌,
}
use pipeline_lab.Words.{u32}
use pipeline_lab.Isa.Instruction.{Instruction}
use pipeline_lab.Isa.Encoding.{encode}
use pipeline_lab.Isa.Encoding.Decoding.{decode-IsDecoded}
use pipeline_lab.Asm.Program.{Program, Text}
use pipeline_lab.Asm.Statement.{Statement, is_label}
use pipeline_lab.Asm.Token.{Token}
use pipeline_lab.Asm.Lexer.{tokenize}
use pipeline_lab.Asm.Parser.{parse}
use pipeline_lab.Asm.Translator.{Symbols, translate}
use pipeline_lab.Asm.Assembler.{symbol_table, assemble_code, assemble}
use pipeline_lab.Asm.Assembler.Code.{Encodes, no_words, one_word, assemble-Encodes}
use pipeline_lab.Asm.Source.{assemble_source}
use pipeline_lab.Asm.Listing.Items.{statements_from, source_text}
use pipeline_lab.Asm.Listing.Printed.{parse-source_text}
use pipeline_lab.Asm.Listing.Instructions.{
  instruction_line, listing, source_text-listing, IsListed, instruction_lines-AreItems,
}
use pipeline_lab.Asm.Listing.Translated.{instruction_line-Translates}

-- The numbers of `n` lines, of which the first is `line`.
abbrev pub lines_from : ℕ → List Instruction → List ℕ
lines_from line [] = []
lines_from line (_ ∷ insts) = line ∷ lines_from (line + 1) insts

Encodes-AreListed : {ws : List ℕ} {is : List Instruction} → Encodes ws is → All IsListed is
Encodes-AreListed no_words = tt
Encodes-AreListed (one_word c more) = (
  record { decoded = decode-IsDecoded _ c.decodes; plain_ret = c.plain_ret },
  Encodes-AreListed more,
)

symbol_table-code :
    (symbols : Symbols) (address : ℕ) (s : Statement) (rest : List Statement)
    → is_label s.kind ≡ false
    → symbol_table symbols address (s ∷ rest) ≡ symbol_table symbols (u32 (address + 4)) rest
unfolding symbol_table
symbol_table-code symbols address s rest code = rw (symbol_table, code) refl

-- Instructions define no label.
symbol_table-lines :
    (insts : List Instruction) (line address : ℕ)
    → All IsListed insts
    → symbol_table [] address (statements_from line (map instruction_line insts)) ≡ ok []
unfolding symbol_table
symbol_table-lines [] line address h = refl
symbol_table-lines (inst ∷ insts) line address (h, hs) =
    let t = instruction_line-Translates [] line address inst h in
    let rest = statements_from (line + 1) (map instruction_line insts) in
    ap (symbol_table [] address) (t.placed rest)
    ∙ symbol_table-code [] address t.statement rest t.is_code
    ∙ symbol_table-lines insts (line + 1) (u32 (address + 4)) hs

-- The program with more words, instructions and lines.
abbrev extended : Program → List ℕ → List Instruction → List ℕ → Program
extended prog ws is lines = record prog {
  words = prog.words ++ ws;
  instructions = prog.instructions ++ is;
  source_lines = prog.source_lines ++ lines;
}

assemble_code-code :
    (symbols : Symbols) (prog : Program) (address w : ℕ) (s : Statement) (inst : Instruction)
    (rest : List Statement)
    → is_label s.kind ≡ false
    → translate symbols s address ≡ ok inst
    → encode inst ≡ ok w
    → assemble_code symbols prog address (s ∷ rest)
      ≡ assemble_code symbols
          (extended prog (w ∷ []) (inst ∷ []) (s.line ∷ []))
          (u32 (address + 4))
          rest
unfolding assemble_code
assemble_code-code symbols prog address w s inst rest code made coded =
    rw (assemble_code, code, made, coded) refl

extended_twice :
    (prog : Program) (w line : ℕ) (inst : Instruction) (ws : List ℕ) (is : List Instruction)
    (lines : List ℕ)
    → extended (extended prog (w ∷ []) (inst ∷ []) (line ∷ [])) ws is lines
      ≡ extended prog (w ∷ ws) (inst ∷ is) (line ∷ lines)
extended_twice prog w line inst ws is lines = λ i. record prog {
  words = append_assoc prog.words (w ∷ []) ws i;
  instructions = append_assoc prog.instructions (inst ∷ []) is i;
  source_lines = append_assoc prog.source_lines (line ∷ []) lines i;
}

assemble_code-lines :
    {ws : List ℕ} {is : List Instruction} (prog : Program) (line address : ℕ)
    → Encodes ws is
    → assemble_code [] prog address (statements_from line (map instruction_line is))
      ≡ ok (extended prog ws is (lines_from line is))
unfolding assemble_code
assemble_code-lines prog line address no_words = λ i. ok (record prog {
  words = sym (append-nil prog.words) i;
  instructions = sym (append-nil prog.instructions) i;
  source_lines = sym (append-nil prog.source_lines) i;
})
assemble_code-lines prog line address (one_word {w = w} {inst = inst} {ws = ws} {is = is} c more) =
    let listed : IsListed inst = record {
      decoded = decode-IsDecoded w c.decodes;
      plain_ret = c.plain_ret;
    } in
    let t = instruction_line-Translates [] line address inst listed in
    let rest = statements_from (line + 1) (map instruction_line is) in
    ap (assemble_code [] prog address) (t.placed rest)
    ∙ assemble_code-code [] prog address w t.statement inst rest t.is_code t.translated c.coded
    ∙ assemble_code-lines (extended prog (w ∷ []) (inst ∷ []) (t.statement.line ∷ [])) (line + 1)
        (u32 (address + 4)) more
    ∙ ap ok (extended_twice prog w t.statement.line inst ws is (lines_from (line + 1) is))
    ∙ ap (λ l. ok (extended prog (w ∷ ws) (inst ∷ is) (l ∷ lines_from (line + 1) is))) t.own_line

assemble-lines :
    {ws : List ℕ} {is : List Instruction}
    → Encodes ws is
    → assemble (statements_from 1 (map instruction_line is))
      ≡ ok (record { words = ws; instructions = is; source_lines = lines_from 1 is; symbols = [] })
unfolding assemble
assemble-lines {ws} {is} code =
    let blank_program : Program = record {
      words = [];
      instructions = [];
      source_lines = [];
      symbols = [];
    } in
    ap
      (λ r. r >>= λ symbols.
        assemble_code symbols (record blank_program { symbols = symbols }) 0
          (statements_from 1 (map instruction_line is)))
      (symbol_table-lines is 1 0 (Encodes-AreListed code))
    ∙ assemble_code-lines blank_program 1 0 code

assemble_source-parts :
    (source : Text) (tokens : List Token) (statements : List Statement) (program : Program)
    → tokenize source ≡ ok tokens
    → parse tokens ≡ ok statements
    → assemble statements ≡ ok program
    → assemble_source source ≡ ok program
unfolding assemble_source
assemble_source-parts source tokens statements program lexed parsed made =
    rw (lexed, parsed, made) refl

-- Disassembling an assembled program and assembling the text gives the program back: if statements
-- assemble to a program, then the text that `disassemble` prints of its instructions, one to a line,
-- assembles to the same words and instructions, on the lines of that text and without labels.
pub assemble_source-listing :
    (statements : List Statement) (program : Program)
    → assemble statements ≡ ok program
    → assemble_source (listing program.instructions)
      ≡ ok (record program { source_lines = lines_from 1 program.instructions; symbols = [] })
assemble_source-listing statements program made =
    let code = (assemble-Encodes statements program made).0 in
    let is = program.instructions in
    let (tokens, lexed, parsed) =
      parse-source_text (map instruction_line is)
        (instruction_lines-AreItems is (Encodes-AreListed code)) in
    ap assemble_source (sym (source_text-listing is))
    ∙ assemble_source-parts (source_text (map instruction_line is)) tokens
        (statements_from 1 (map instruction_line is)) _ lexed parsed (assemble-lines code)
