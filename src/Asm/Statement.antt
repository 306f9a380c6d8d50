-- ===== src/Asm/Statement.antt =====
-- include/plab/asm/parser.hpp: the parsed statements that the parser hands to the assembler, and
-- what the assembler throws (include/plab/asm/assembler.hpp).
use pipeline_lab.Prelude.{
  ℕ, List, [], ◌∷◌, Bool, true, false, ◌&&◌, ◌==◌, if◌then◌else◌, Option, none, some, Result, err,
}
use pipeline_lab.Prelude.Int.{ℤ, pos}
use pipeline_lab.Asm.Program.{Text}
use pipeline_lab.Isa.Encoding.{EncodingError}

pub data OperandKind : Type 0 where
  register immediate label memory : OperandKind

-- A memory operand `disp(base)` has the displacement in `imm` and the base in `reg`.
pub record Operand : Type 0 where
  pub kind : OperandKind
  pub reg : ℕ
  pub imm : ℤ
  pub label : Text
  pub line : ℕ

-- `Operand{}`.
abbrev pub no_operand : Operand
no_operand = record { kind = OperandKind.register; reg = 0; imm = pos 0; label = []; line = 0 }

pub data StatementKind : Type 0 where
  label_definition instruction : StatementKind

pub record Statement : Type 0 where
  pub kind : StatementKind
  pub name : Text
  pub operands : List Operand
  pub line : ℕ

-- `s.kind == Statement::Kind::Label`.
unfoldable pub is_label : StatementKind → Bool
is_label label_definition = true
is_label instruction = false

-- Why the assembler throws.
pub data Reason : Type 0 where
  unknown_instruction : Text → Reason
  operand_count : Text → ℕ → ℕ → Reason
  expected_register expected_immediate expected_memory : Reason
  immediate_out_of_range : ℤ → Reason
  displacement_out_of_range : ℤ → Reason
  undefined_label : Text → Reason
  branch_target_kind : Reason
  branch_too_far : ℤ → Reason
  jump_target_kind : Reason
  negative_target : Reason
  duplicate_label : Text → Reason
  encoding_failed : EncodingError → Reason

pub record AssembleError : Type 0 where
  pub reason : Reason
  pub line : ℕ

abbrev pub fail {ℓ} : {A : Type ℓ} → ℕ → Reason → Result AssembleError A
fail line reason = err (record { reason = reason; line = line })

-- `a == b` on `std::string`.
unfoldable pub same_text : Text → Text → Bool
same_text [] [] = true
same_text [] (_ ∷ _) = false
same_text (_ ∷ _) [] = false
same_text (a ∷ at) (b ∷ bt) = a == b && same_text at bt

-- `find` on a map whose keys are texts.
unfoldable pub find_key {ℓ} : {A : Type ℓ} → List (Text × A) → Text → Option A
unfolding same_text
find_key [] name = none
find_key ((key, value) ∷ rest) name =
    let later = find_key rest name in if same_text key name then some value else later
