-- ===== src/Cli.antt =====
-- src/main.cpp: the command line.
pub mod Options
pub mod Messages
pub mod Output
pub mod Main
mod Tests
