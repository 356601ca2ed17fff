-- ===== src/Tests.antt =====
-- Runs of the models on concrete inputs, and the theorems applied to them.
pub mod Data
pub mod Index
pub mod Lines
pub mod Work
pub mod Levels
pub mod Selected
pub mod Output
pub mod Traces
pub mod Modules
pub mod Batches
pub mod Arguments
pub mod Programs
pub mod Profiles
