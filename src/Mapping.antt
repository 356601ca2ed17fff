-- ===== src/Mapping.antt =====
-- backend/src/cache/mapping: addresses and ranges of addresses as cache lines.
pub mod Address
pub mod Types
pub mod LineMapping
pub mod Resolved
