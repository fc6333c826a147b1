-- ===== src/Fs/Updates.antt =====
-- How single writes to the tables of fs/state.c bear on the parts of the invariant.
pub mod Inodes
pub mod Opens
pub mod Entries
