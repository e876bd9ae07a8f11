-- ===== src/Calc.antt =====
-- SLA calculation (sla_calculator/src/lib.rs): the outcome of an outage, its submission by the
-- operator, and the read-only variants.
pub mod Outcome
pub mod Submit
pub mod View
pub mod Amounts
pub mod Correct
pub mod Antitone
pub mod Access
pub mod Resubmit
pub mod Recorded
pub mod Succeeds
mod Tests
