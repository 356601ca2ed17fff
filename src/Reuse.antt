-- ===== src/Reuse.antt =====
-- The reuse distances of a trace of names, without sets or levels.
pub mod Profile
