-- ===== src/Batch.antt =====
-- The batch analysis, which the streaming one is compared with.
pub mod Csrd
pub mod Replay
pub mod Level
pub mod Traces
pub mod Module
