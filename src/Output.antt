-- ===== src/Output.antt =====
-- backend/src/cache/output: the checks of what is written out.
pub mod Identity
pub mod Events
pub mod Telemetry
pub mod Results
