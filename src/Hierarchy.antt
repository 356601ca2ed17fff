-- ===== src/Hierarchy.antt =====
-- backend/src/cache/hierarchy and backend/src/cache/streaming: two cache levels in line.
pub mod Streaming
pub mod Types
pub mod Service
pub mod Level
pub mod Task
