-- ===== src/Asm/Program.antt =====
-- include/plab/asm/assembler.hpp: the assembled program.
use pipeline_lab.Prelude.{ℕ, ◌*◌, ◌/◌, List, length, get_or}
use pipeline_lab.Words.{u32}
use pipeline_lab.Isa.Instruction.{Instruction}

-- A text is the list of its bytes.
abbrev pub Text : Type 0
Text = List ℕ

abbrev pub instruction_bytes : ℕ
instruction_bytes = 4

-- `symbols` maps each label to its byte address; the first entry of a label counts.
pub record Program : Type 0 where
  pub words : List ℕ
  pub instructions : List Instruction
  pub source_lines : List ℕ
  pub symbols : List (Text × ℕ)

-- `static_cast<std::uint32_t>(program_.words.size()) * asmr::kInstructionBytes`.
unfoldable pub code_bytes : Program → ℕ
code_bytes program = u32 (u32 (length program.words) * instruction_bytes)

-- The word at an address of the code, or 0 past its end.
abbrev pub word_at : Program → ℕ → ℕ
word_at program pc = get_or program.words (pc / instruction_bytes) 0
