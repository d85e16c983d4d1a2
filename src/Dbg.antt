-- ===== src/Dbg.antt =====
-- src/kernel/dbg and src/include/dbg: the log.
pub mod Log
