-- ===== src/Batch/Effect.antt =====
-- The storage after a batch (sla_calculator/src/batch.rs).
use noc_iq_contracts.Base.{◌≡◌, refl, ◌++◌, List, [], ◌∷◌, arith, unwrap_or, some, false, length}
use noc_iq_contracts.Types.{Address, Env}
use noc_iq_contracts.Storage.{Storage, ok, batch_calculated}
use noc_iq_contracts.Storage.Frame.{Frame, >>=-Frame, >>=-Frame_ok}
use noc_iq_contracts.Guards.{require_operator, require_not_paused, check_version}
use noc_iq_contracts.Batch.{
  BatchRequest, BatchResult, BatchSummary, Tally, validate_batch, run_batch, batch_calculate,
  batch_calculate_view, abs_i128, summary_of,
}
use noc_iq_contracts.Batch.Frame.{
  validate_batch-Frame, run_batch-Frame, require_operator-Frame, require_not_paused-Frame,
  check_version-Frame,
}

require_operator-ok :
    (c : Address) (e : Env) (s : Storage) {u : Storage}
    → require_operator c e s ≡ (ok tt, u)
    → s.operator ≡ some c
unfolding require_operator
require_operator-ok c e s h = ground arith

require_not_paused-ok :
    (e : Env) (s : Storage) {u : Storage}
    → require_not_paused e s ≡ (ok tt, u)
    → unwrap_or s.paused false ≡ false
unfolding require_not_paused
require_not_paused-ok e s h = ground arith

-- The storage after a batch.
unfoldable pub after_batch : Address → List BatchRequest → Tally → Storage → Storage
after_batch c reqs t s = record s {
  events =
      s.events
      ++ (batch_calculated c (length reqs) t.met_count t.violation_count
            (abs_i128 t.total_penalties)
          ∷ []);
}

-- A batch that succeeds came from the operator while the contract was not paused; it returns the
-- summary of its loop and publishes one event, and neither history nor statistics change.
pub batch_calculate-ok :
    (c : Address) (reqs : List BatchRequest) (e : Env) (s : Storage)
    {r : BatchSummary × List BatchResult} {u : Storage}
    → batch_calculate c reqs e s ≡ (ok r, u)
    → (t : Tally) × (run_batch reqs e s ≡ (ok t, s))
      × (r ≡ (summary_of reqs t, t.results))
      × (u ≡ after_batch c reqs t s)
      × (s.operator ≡ some c)
      × (unwrap_or s.paused false ≡ false)
unfolding batch_calculate after_batch
batch_calculate-ok c reqs e s h =
    let (n, p1, q1) = >>=-Frame_ok (validate_batch reqs) _ e s (validate_batch-Frame reqs) h in
    let (x, p2, q2) = >>=-Frame_ok (require_operator c) _ e s (require_operator-Frame c) q1 in
    let (y, p3, q3) = >>=-Frame_ok require_not_paused _ e s require_not_paused-Frame q2 in
    let (t, p4, q4) = >>=-Frame_ok (run_batch reqs) _ e s (run_batch-Frame reqs) q3 in
    (t, p4, cc q4, cc q4, require_operator-ok c e s p2, require_not_paused-ok e s p3)

-- The view changes nothing, whatever it returns.
pub batch_calculate_view-Frame : (reqs : List BatchRequest) → Frame (batch_calculate_view reqs)
unfolding batch_calculate_view
batch_calculate_view-Frame reqs = >>=-Frame check_version _ check_version-Frame λ _.
    >>=-Frame (validate_batch reqs) _ (validate_batch-Frame reqs)
      λ _. >>=-Frame (run_batch reqs) _ (run_batch-Frame reqs) λ _. record { same = λ e s. refl }
