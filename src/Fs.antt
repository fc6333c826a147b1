-- ===== src/Fs.antt =====
-- The file system in memory: fs/config.h, fs/state.h, fs/state.c, fs/operations.h and
-- fs/operations.c.
pub mod Types
pub mod Tables
pub mod Dir
pub mod Inodes
pub mod Init
pub mod Operations
pub mod Invariant
pub mod Returns
pub mod Updates
pub mod Tests
