-- ===== src/Viz.antt =====
-- include/plab/viz/trace.hpp and src/viz/trace.cpp: the pipeline diagram and the performance report.
pub mod Diagram
pub mod Report
mod Tests
