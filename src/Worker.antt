-- ===== src/Worker.antt =====
-- The class `Worker` of src/classes/worker.ts, in parts.
pub mod Timing
pub mod Retrying
pub mod Processing
pub mod MainLoop
pub mod Lifecycle
