-- ===== src/Apps.antt =====
-- The command line programs of apps/.
pub mod Text
pub mod Argp
pub mod MpiArgp
pub mod Rename
pub mod Bench
