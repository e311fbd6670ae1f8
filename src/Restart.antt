-- ===== src/Restart.antt =====
-- esio/restart-rename.c: the names of restart files and their rotation.
pub mod NextIndex
pub mod Format
pub mod Rename
pub mod Close
