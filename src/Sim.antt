-- ===== src/Sim.antt =====
-- The simulators: src/sim and include/plab/sim.
pub mod Fault
pub mod RegisterFile
pub mod Memory
pub mod Alu
pub mod Bounds
pub mod Interpreter
pub mod Pipeline
pub mod Tests
