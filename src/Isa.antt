-- ===== src/Isa.antt =====
-- The instruction set of include/plab/isa and src/isa.
pub mod Opcode
pub mod Instruction
pub mod Disassemble
pub mod Encoding
mod Tests
