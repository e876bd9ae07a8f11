-- ===== src/Config.antt =====
-- Severity configurations (sla_calculator/src/lib.rs).
pub mod Severity
pub mod Defaults
pub mod Validate
pub mod Update
pub mod Soundness
pub mod Monotone
pub mod Accept
pub mod Frame
pub mod Transitions
pub mod Incomplete
mod Tests
