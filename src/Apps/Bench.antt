-- ===== src/Apps/Bench.antt =====
-- apps/esio_bench.c, which writes restart files and takes the time.
pub mod Split
pub mod Details
pub mod Bytes
pub mod Arguments
pub mod Options
pub mod Topology
pub mod FieldProblem
pub mod PlaneProblem
pub mod LineProblem
pub mod Names
pub mod Parts
pub mod Iteration
pub mod Main
