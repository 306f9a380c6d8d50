-- ===== src/Asm.antt =====
-- The assembler: src/asm and include/plab/asm.
pub mod Program
pub mod Token
pub mod Statement
pub mod Lexer
pub mod Parser
pub mod Translator
pub mod Assembler
pub mod Source
pub mod Listing
mod Tests
