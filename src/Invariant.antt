-- ===== src/Invariant.antt =====
-- Which operations leave the handle alone, and what holds of the handle between the operations.
pub mod Transfers
pub mod Queries
pub mod Reads
pub mod Writes
pub mod Typed
pub mod Files
