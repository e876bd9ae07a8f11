-- ===== src/Proposals/Order.antt =====
-- Proposals leave in the order in which they came
-- (sla_calculator/src/proposal_execution_queue.rs).
use mathlib.Core.List.{append-nil, append_assoc}
use noc_iq_contracts.Base.{◌≡◌, refl, sym, ap, ◌∙◌, Option, none, some, List, [], ◌∷◌, ◌++◌}
use noc_iq_contracts.Proposals.{
  QueuedProposal, QueueStore, stored_queue, enqueue_proposal, dequeue_proposal, pop_front,
}

-- A caller's use of the queue.
pub data QueueUse : Type 0 where
  enqueue : QueuedProposal → QueueUse
  dequeue : QueueUse

abbrev pub appended : Option QueuedProposal → List QueuedProposal
appended none = []
appended (some p) = p ∷ []

-- What the dequeues returned, in order, and the storage at the end.
unfoldable pub run_uses : List QueueUse → QueueStore → List QueuedProposal × QueueStore
run_uses [] s = ([], s)
run_uses (enqueue p ∷ uses) s = run_uses uses (enqueue_proposal p s)
run_uses (dequeue ∷ uses) s =
    let (front, s') = dequeue_proposal s in
    let (later, s'') = run_uses uses s' in (appended front ++ later, s'')

pub enqueued : List QueueUse → List QueuedProposal
enqueued [] = []
enqueued (enqueue p ∷ uses) = p ∷ enqueued uses
enqueued (dequeue ∷ uses) = enqueued uses

dequeue_proposal-split :
    (s : QueueStore)
    → appended (dequeue_proposal s).0 ++ stored_queue (dequeue_proposal s).1 ≡ stored_queue s
unfolding dequeue_proposal
dequeue_proposal-split s = front_split (stored_queue s) refl
  where
    front_split :
        (queue : List QueuedProposal)
        → stored_queue s ≡ queue
        → appended (pop_front queue s).0 ++ stored_queue (pop_front queue s).1 ≡ queue
    front_split [] e = e
    front_split (front ∷ rest) e = refl

-- Whatever proposals are added and taken in whatever order, those taken, in the order in which they
-- were taken, followed by those still in the queue, are those of the queue at the start followed by
-- those added, in the order in which they were added.
pub run_uses-order :
    (uses : List QueueUse) (s : QueueStore)
    → let (taken, after) = run_uses uses s in
      taken ++ stored_queue after ≡ stored_queue s ++ enqueued uses
unfolding run_uses enqueued enqueue_proposal
run_uses-order [] s = sym (append-nil (stored_queue s))
run_uses-order (enqueue p ∷ uses) s =
    run_uses-order uses (enqueue_proposal p s)
    ∙ append_assoc (stored_queue s) (p ∷ []) (enqueued uses)
run_uses-order (dequeue ∷ uses) s =
    let s' = (dequeue_proposal s).1 in
    let front = appended (dequeue_proposal s).0 in
    append_assoc front (run_uses uses s').0 (stored_queue (run_uses uses s').1)
    ∙ ap (λ l. front ++ l) (run_uses-order uses s')
    ∙ sym (append_assoc front (stored_queue s') (enqueued uses))
    ∙ ap (λ l. l ++ enqueued uses) (dequeue_proposal-split s)
