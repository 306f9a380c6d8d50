-- ===== src/Asm/Listing/Instructions.antt =====
-- The lines that `disassemble` of src/isa/instruction.cpp prints, by their operands.
use mathlib.Core.List.{append_assoc}
use pipeline_lab.Prelude.{
  ℕ, ◌^◌, ◌≤◌, ◌<◌, ◌≡◌, refl, sym, ap, ◌∙◌, arith, List, [], ◌∷◌, ◌++◌, map, drop, get_or, All,
  Bool, Bool-cases, inl, inr, true, ◌&&◌, ◌||◌, ◌==◌, if◌then◌else◌, none,
}
use pipeline_lab.Prelude.Text.{codes, decimal, signed_decimal}
use pipeline_lab.Prelude.Int.{pos, pos_part, neg_part}
use pipeline_lab.Words.{signed, IsWord}
use pipeline_lab.Isa.Opcode.{
  Opcode, add, Format, r_type, i_type, b_type, j_type, format_of, is_load, is_store, is_ret,
}
use pipeline_lab.Isa.Instruction.{Instruction}
use pipeline_lab.Isa.Disassemble.{mnemonic_of, is_add, reg, disassemble_format, disassemble}
use pipeline_lab.Isa.Encoding.RoundTrip.{Fits}
use pipeline_lab.Isa.Encoding.Decoding.{IsDecoded}
use pipeline_lab.Asm.Program.{Text}
use pipeline_lab.Asm.Lexer.{
  is_digit, is_alnum, is_ident_char, is_ident_start, is_alpha, register_name_index, digits_value,
  digit_value,
}
use pipeline_lab.Asm.Listing.{Piece, piece_text, render}
use pipeline_lab.Asm.Listing.Items.{
  Arg, register_arg, immediate_arg, memory_arg, Item, instruction_item, register_piece, item_pieces,
  items_pieces, source_text, IsName, IsArg, IsItem,
}

-- The first byte of a mnemonic, and the others.
abbrev pub mnemonic_first : Opcode → ℕ
mnemonic_first op = get_or (mnemonic_of op) 0 0

abbrev pub mnemonic_rest : Opcode → Text
mnemonic_rest op = drop 1 (mnemonic_of op)

abbrev pub named : Opcode → List Arg → Item
named op args = instruction_item (mnemonic_first op) (mnemonic_rest op) args

-- The line of an instruction.
abbrev pub format_line : Format → Instruction → Item
format_line r_type inst =
    if is_add inst.op && inst.rd == 0 && inst.rs == 0 && inst.rt == 0
    then instruction_item b'n' (codes "op") []
    else named inst.op (register_arg inst.rd ∷ register_arg inst.rs ∷ register_arg inst.rt ∷ [])
format_line i_type inst =
    if is_load inst.op || is_store inst.op
    then named inst.op (register_arg inst.rd ∷ memory_arg (signed inst.imm) inst.rs ∷ [])
    else named inst.op
        (register_arg inst.rd ∷ register_arg inst.rs ∷ immediate_arg (signed inst.imm) ∷ [])
format_line b_type inst =
    named inst.op
      (register_arg inst.rs ∷ register_arg inst.rt ∷ immediate_arg (signed inst.imm) ∷ [])
format_line j_type inst =
    if is_ret inst.op
    then instruction_item b'r' (codes "et") []
    else named inst.op (immediate_arg (pos inst.target) ∷ [])

abbrev pub instruction_line : Instruction → Item
instruction_line inst = format_line (format_of inst.op) inst

-- Instructions as `disassemble` prints them, one to a line.
unfoldable pub listing : List Instruction → Text
unfolding disassemble
listing [] = []
listing (inst ∷ insts) = disassemble inst ++ 10 ∷ listing insts

mnemonic_parts : (op : Opcode) → mnemonic_of op ≡ mnemonic_first op ∷ mnemonic_rest op
unfolding mnemonic_of
mnemonic_parts add = refl
mnemonic_parts _ = refl

-- How the operands stand on a line.
three_operands :
    (m a b e t : Text)
    → m ++ b' ' ∷ (a ++ b',' ∷ b' ' ∷ (b ++ b',' ∷ b' ' ∷ (e ++ 10 ∷ t)))
      ≡ m ++ codes " " ++ a ++ codes ", " ++ b ++ codes ", " ++ e ++ 10 ∷ t
three_operands m a b e t = simp append_assoc

memory_operand :
    (m a d b t : Text)
    → m ++ b' ' ∷ (a ++ b',' ∷ b' ' ∷ (d ++ b'(' ∷ (b ++ b')' ∷ 10 ∷ t)))
      ≡ m ++ codes " " ++ a ++ codes ", " ++ d ++ codes "(" ++ b ++ codes ")" ++ 10 ∷ t
memory_operand m a d b t = simp append_assoc

one_operand : (m a t : Text) → m ++ b' ' ∷ (a ++ 10 ∷ t) ≡ m ++ codes " " ++ a ++ 10 ∷ t
one_operand m a t = simp append_assoc

-- A line that starts with a mnemonic.
mnemonic_line :
    (op : Opcode) (t : Text) → mnemonic_first op ∷ mnemonic_rest op ++ t ≡ mnemonic_of op ++ t
mnemonic_line op t = ap (λ m. m ++ t) (sym (mnemonic_parts op))

format_line-text :
    (f : Format) (inst : Instruction) (more : List Piece)
    → render (item_pieces (format_line f inst) more) ≡ disassemble_format f inst ++ 10 ∷ render more
unfolding render piece_text register_piece disassemble_format reg
format_line-text r_type inst more =
    elim (Bool-cases (is_add inst.op && inst.rd == 0 && inst.rs == 0 && inst.rt == 0)) [
      | inl nop ↦ rw nop refl
      | inr other ↦ rw other (
          mnemonic_line inst.op _
          ∙ three_operands (mnemonic_of inst.op) (b'r' ∷ decimal inst.rd) (b'r' ∷ decimal inst.rs)
              (b'r' ∷ decimal inst.rt) (render more))
    ]
format_line-text i_type inst more = elim (Bool-cases (is_load inst.op || is_store inst.op)) [
  | inl access ↦ rw access (
      mnemonic_line inst.op _
      ∙ memory_operand (mnemonic_of inst.op) (b'r' ∷ decimal inst.rd)
          (signed_decimal (signed inst.imm)) (b'r' ∷ decimal inst.rs) (render more))
  | inr alu ↦ rw alu (
      mnemonic_line inst.op _
      ∙ three_operands (mnemonic_of inst.op) (b'r' ∷ decimal inst.rd) (b'r' ∷ decimal inst.rs)
          (signed_decimal (signed inst.imm)) (render more))
]
format_line-text b_type inst more =
    mnemonic_line inst.op _
    ∙ three_operands (mnemonic_of inst.op) (b'r' ∷ decimal inst.rs) (b'r' ∷ decimal inst.rt)
        (signed_decimal (signed inst.imm)) (render more)
format_line-text j_type inst more = elim (Bool-cases (is_ret inst.op)) [
  | inl ret ↦ rw ret refl
  | inr jump ↦ rw jump (
      mnemonic_line inst.op _
      ∙ one_operand (mnemonic_of inst.op) (signed_decimal (pos inst.target)) (render more))
]

-- The source text of instructions is their listing.
pub source_text-listing :
    (insts : List Instruction) → source_text (map instruction_line insts) ≡ listing insts
unfolding source_text listing disassemble render
source_text-listing [] = refl
source_text-listing (inst ∷ insts) =
    format_line-text (format_of inst.op) inst (items_pieces (map instruction_line insts))
    ∙ ap (λ t. disassemble inst ++ 10 ∷ t) (source_text-listing insts)

-- What an instruction has to be to be read back: it is as the decoder gives it, and a RET has no
-- target.
pub record IsListed (inst : Instruction) : Type 0 where
  pub decoded : IsDecoded inst
  pub plain_ret : is_ret inst.op ≡ true → inst.target ≡ 0

all_pass : (ℕ → Bool) → Text → Bool
all_pass test [] = true
all_pass test (c ∷ cs) = test c && all_pass test cs

all_pass-All : (test : ℕ → Bool) (s : Text) → all_pass test s ≡ true → All (λ c. test c ≡ true) s
unfolding all_pass
all_pass-All test [] h = tt
all_pass-All test (c ∷ cs) h = (ground arith, all_pass-All test cs (ground arith))

mnemonic_bytes :
    (op : Opcode)
    → (is_ident_start (mnemonic_first op) ≡ true)
      × (all_pass is_ident_char (mnemonic_rest op) ≡ true)
      × (register_name_index (mnemonic_first op ∷ mnemonic_rest op) ≡ none)
unfolding mnemonic_of is_ident_start is_ident_char is_alnum is_alpha is_digit register_name_index
    digits_value digit_value all_pass
mnemonic_bytes add = (refl, refl, refl)
mnemonic_bytes _ = (refl, refl, refl)

mnemonic-IsName : (op : Opcode) → IsName (mnemonic_first op) (mnemonic_rest op)
mnemonic-IsName op =
    let (start, others, no_register) = mnemonic_bytes op in
    ((start, all_pass-All is_ident_char (mnemonic_rest op) others), no_register)

nop-IsName : IsName b'n' (codes "op")
unfolding is_ident_start is_ident_char is_alnum is_alpha is_digit register_name_index digits_value
    digit_value
nop-IsName = ((refl, (refl, (refl, tt))), refl)

ret-IsName : IsName b'r' (codes "et")
unfolding is_ident_start is_ident_char is_alnum is_alpha is_digit register_name_index digits_value
    digit_value
ret-IsName = ((refl, (refl, (refl, tt))), refl)

imm_range :
    (imm : ℕ) → IsWord imm → (pos_part (signed imm) < 2 ^ 31) × (neg_part (signed imm) ≤ 2 ^ 31)
imm_range imm h = ground arith

imm-IsArg : (imm : ℕ) → IsWord imm → IsArg (immediate_arg (signed imm))
imm-IsArg imm h = let range = imm_range imm h in (omega (arith, range), omega (arith, range))

format_line-IsItem :
    (f : Format) (inst : Instruction) → IsWord inst.imm → Fits f inst → IsItem (format_line f inst)
format_line-IsItem r_type inst h (hd, hs, ht) =
    elim (Bool-cases (is_add inst.op && inst.rd == 0 && inst.rs == 0 && inst.rt == 0)) [
      | inl nop ↦ rw nop (nop-IsName, tt)
      | inr other ↦ rw other (mnemonic-IsName inst.op, (hd, (hs, (ht, tt))))
    ]
format_line-IsItem i_type inst h (hd, hs, _) =
    elim (Bool-cases (is_load inst.op || is_store inst.op)) [
      | inl mem ↦ rw mem (mnemonic-IsName inst.op, (hd, ((imm-IsArg inst.imm h, hs), tt)))
      | inr alu ↦ rw alu (mnemonic-IsName inst.op, (hd, (hs, (imm-IsArg inst.imm h, tt))))
    ]
format_line-IsItem b_type inst h (hs, ht, _) =
    (mnemonic-IsName inst.op, (hs, (ht, (imm-IsArg inst.imm h, tt))))
format_line-IsItem j_type inst h fits = elim (Bool-cases (is_ret inst.op)) [
  | inl ret ↦ rw ret (ret-IsName, tt)
  | inr jump ↦ rw jump (mnemonic-IsName inst.op, ((omega (arith, fits), omega arith), tt))
]

pub instruction_lines-AreItems :
    (insts : List Instruction) → All IsListed insts → All IsItem (map instruction_line insts)
instruction_lines-AreItems [] h = tt
instruction_lines-AreItems (inst ∷ insts) (h, hs) =
    let d = h.decoded in
    (
      format_line-IsItem (format_of inst.op) inst d.imm_word d.fits,
      instruction_lines-AreItems insts hs,
    )
