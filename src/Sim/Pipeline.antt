-- ===== src/Sim/Pipeline.antt =====
-- include/plab/sim/pipeline.hpp and src/sim/pipeline.cpp: the 5-stage pipeline simulator.
pub mod State
pub mod Stages
pub mod Cycle
pub mod Forwarding
pub mod Operands
pub mod Separation
pub mod Execution
pub mod Stepping
pub mod Committing
pub mod Fetching
pub mod Refinement
pub mod Advance
pub mod Working
pub mod Retire
pub mod Drain
pub mod Finish
pub mod Progress
pub mod Correct
pub mod Faults
pub mod Endless
pub mod Complete
pub mod Hazards
pub mod Trace
