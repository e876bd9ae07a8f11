-- ===== src/Proposals.antt =====
-- The queue of proposals that wait for execution
-- (sla_calculator/src/proposal_execution_queue.rs).
pub mod Order
pub mod Tests
use noc_iq_contracts.Base.{
  ℕ, Option, none, some, List, [], ◌∷◌, ◌++◌, length, ltb, unwrap_or, if◌then◌else◌,
}
use noc_iq_contracts.Effect.{Effect, ◌>>=◌, ◌>>◌, clock, reads, writes, refuse_if, return_ok}

pub record QueuedProposal : Type 0 where
  pub proposal_id : ℕ
  pub execute_after : ℕ

pub data QueueError : Type 0 where
  timelock_not_expired : QueueError

-- The stored queue, oldest first, and the published ids.
pub record QueueStore : Type 0 where
  pub queue : Option (List QueuedProposal)
  pub events : List ℕ

abbrev pub QueueCall : Type 0 → Type 0
QueueCall A = Effect QueueStore QueueError A

unfoldable pub execute_queued_proposal : QueuedProposal → QueueCall (Unit {0})
execute_queued_proposal proposal = do
  now ← clock
  refuse_if (ltb now proposal.execute_after) timelock_not_expired
  writes (λ s. record s { events = s.events ++ (proposal.proposal_id ∷ []) })

abbrev pub stored_queue : QueueStore → List QueuedProposal
stored_queue s = unwrap_or s.queue []

unfoldable pub enqueue_proposal : QueuedProposal → QueueStore → QueueStore
enqueue_proposal proposal s = record s { queue = some (stored_queue s ++ (proposal ∷ [])) }

abbrev pub queue_len : QueueStore → ℕ
queue_len s = length (stored_queue s)

abbrev pub pop_front : List QueuedProposal → QueueStore → Option QueuedProposal × QueueStore
pop_front [] s = (none, s)
pop_front (front ∷ rest) s = (some front, record s { queue = some rest })

unfoldable pub dequeue_proposal : QueueStore → Option QueuedProposal × QueueStore
dequeue_proposal s = pop_front (stored_queue s) s
