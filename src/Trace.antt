-- ===== src/Trace.antt =====
-- backend/src/trace: the bounds on the work of a trace, and the loops of a trace.
pub mod Access
pub mod Execution
pub mod Index
pub mod Affine
pub mod Signed
pub mod Layout
pub mod Stream
pub mod Budget
pub mod Loop
