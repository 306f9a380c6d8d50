-- ===== src/Sim/Pipeline/Trace.antt =====
-- The trace that src/sim/pipeline.cpp records: which instruction was in which stage in which cycle.
pub mod Held
pub mod Parts
pub mod Worked
pub mod Shifts
pub mod Apart
pub mod Recorded
