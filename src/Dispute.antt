-- ===== src/Dispute.antt =====
-- Dispute resolution (sla_calculator/src/dispute.rs): the records, the settlement, the entry points
-- and the sequences of calls.
pub mod State
pub mod Settle
pub mod Entry
pub mod Votes
pub mod Payout
pub mod Deadline
pub mod Tests
pub mod Calls
