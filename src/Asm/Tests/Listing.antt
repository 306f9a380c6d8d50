-- ===== src/Asm/Tests/Listing.antt =====
-- Source texts printed, and read by src/asm again.
use pipeline_lab.Prelude.{◌≡◌, refl, arith, List, [], ◌∷◌, All, ok}
use pipeline_lab.Prelude.Text.{codes, signed_decimal}
use pipeline_lab.Prelude.Int.{negsuc}
use pipeline_lab.Isa.Disassemble.{disassemble, mnemonic_of}
use pipeline_lab.Isa.Opcode.{format_of, is_load, is_store, is_ret}
use pipeline_lab.Asm.Token.{Token}
use pipeline_lab.Asm.Lexer.{
  tokenize, is_alpha, is_digit, is_alnum, is_ident_start, is_ident_char, register_name_index,
  digits_value, digit_value,
}
use pipeline_lab.Asm.Parser.{parse}
use pipeline_lab.Asm.Source.{assemble_source}
use pipeline_lab.Asm.Listing.{
  Piece, word, literal, mark, comma_mark, blank, line_break, comment, piece_text, render,
}
use pipeline_lab.Asm.Listing.Items.{
  Item, label_item, instruction_item, comment_item, register_arg, memory_arg, label_arg,
  register_piece, source_text, statements_from, IsItem,
}
use pipeline_lab.Asm.Listing.Printed.{parse-source_text}
use pipeline_lab.Asm.Listing.Instructions.{listing}
use pipeline_lab.Asm.Listing.Assembled.{assemble_source-listing}
use pipeline_lab.Asm.Tests.{skipping, skipping_program, skipping_assembled}

-- li r1, -8 ; eight down
abbrev some_pieces : List Piece
some_pieces =
    word b'l' (codes "i")
    ∷ blank
    ∷ word b'r' (codes "1")
    ∷ mark comma_mark
    ∷ blank
    ∷ literal (negsuc 7)
    ∷ comment (codes " eight down")
    ∷ line_break
    ∷ []

-- ; the end
-- loop:
-- BEQ r1, r2, loop
-- sw r3, -4(r2)
abbrev some_items : List Item
some_items =
    comment_item (codes " the end")
    ∷ label_item b'l' (codes "oop")
    ∷ instruction_item b'B' (codes "EQ")
        (register_arg 1 ∷ register_arg 2 ∷ label_arg b'l' (codes "oop") ∷ [])
    ∷ instruction_item b's' (codes "w") (register_arg 3 ∷ memory_arg (negsuc 3) 2 ∷ [])
    ∷ []

some_text : source_text some_items ≡ codes "; the end\nloop:\nBEQ r1, r2, loop\nsw r3, -4(r2)\n"
unfolding source_text render piece_text register_piece signed_decimal
some_text = refl

some_items-AreItems : All IsItem some_items
unfolding is_ident_start is_ident_char is_alnum is_alpha is_digit register_name_index digits_value
    digit_value
some_items-AreItems = ground arith

parse-source_text_example :
    (tokens : List Token) × (tokenize (source_text some_items) ≡ ok tokens)
    × (parse tokens ≡ ok (statements_from 1 some_items))
parse-source_text_example = parse-source_text some_items some_items-AreItems

skipping_listing :
    listing skipping_program.instructions
    ≡ codes "addi r1, r0, 5\nbeq r0, r0, 8\naddi r1, r0, 7\nret\n"
unfolding listing disassemble format_of mnemonic_of is_load is_store is_ret
skipping_listing = refl

assemble_source-listing_example :
    assemble_source (listing skipping_program.instructions)
    ≡ ok (record skipping_program { source_lines = 1 ∷ 2 ∷ 3 ∷ 4 ∷ []; symbols = [] })
assemble_source-listing_example =
    assemble_source-listing skipping skipping_program skipping_assembled
