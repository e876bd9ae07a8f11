-- ===== src/Proposals/Tests.antt =====
-- A proposal that is taken before its timelock has passed
-- (sla_calculator/src/proposal_execution_queue.rs), and the theorem at such a sequence.
use noc_iq_contracts.Base.{◌≡◌, refl, none, List, [], ◌∷◌, ◌++◌}
use noc_iq_contracts.Effect.{ok, err}
use noc_iq_contracts.Proposals.{
  QueuedProposal, QueueStore, stored_queue, enqueue_proposal, dequeue_proposal,
  execute_queued_proposal, timelock_not_expired,
}
use noc_iq_contracts.Proposals.Order.{
  QueueUse, enqueue, dequeue, run_uses, enqueued, run_uses-order,
}

abbrev empty_queue : QueueStore
empty_queue = record { queue = none; events = [] }

abbrev slow : QueuedProposal
slow = record { proposal_id = 1; execute_after = 900 }

abbrev quick : QueuedProposal
quick = record { proposal_id = 2; execute_after = 100 }

abbrev uses : List QueueUse
uses = dequeue ∷ enqueue slow ∷ enqueue quick ∷ dequeue ∷ []

-- The first proposal leaves the queue although it cannot be executed yet.
slow_leaves :
    ((run_uses uses empty_queue).0 ≡ slow ∷ [])
    × ((execute_queued_proposal slow 500 (run_uses uses empty_queue).1).0
        ≡ err timelock_not_expired)
unfolding run_uses enqueue_proposal dequeue_proposal execute_queued_proposal
slow_leaves = (refl, refl)

-- A proposal that never was in the queue is executed as well.
never_queued : (execute_queued_proposal quick 500 empty_queue).0 ≡ ok tt
unfolding execute_queued_proposal
never_queued = refl

run_uses-order_example :
    let (taken, after) = run_uses uses empty_queue in
    taken ++ stored_queue after ≡ stored_queue empty_queue ++ enqueued uses
run_uses-order_example = run_uses-order uses empty_queue
