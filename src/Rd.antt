-- ===== src/Rd.antt =====
-- backend/src/cache/rd: exact cache-set reuse distances.
pub mod Arithmetic
pub mod Fenwick
pub mod History
pub mod Slots
pub mod RecencyIndex
pub mod Exact
pub mod Statistics
