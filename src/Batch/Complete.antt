-- ===== src/Batch/Complete.antt =====
-- The batch loop (sla_calculator/src/batch.rs) over a sound configuration map: its end, its results
-- and its counters.
use noc_iq_contracts.Base.{
  ℕ, ◌+◌, ◌<◌, ◌≤◌, false, unwrap_or, ◌≡◌, ◌≢◌, refl, inl, inr, ◌∙◌, ap, sym, some, List, [], ◌∷◌,
  ◌++◌, map, length, arith, eq_iff,
}
use mathlib.Core.List.{map-append, append_assoc, append-nil}
use noc_iq_contracts.Types.{Address, ConfigMap, SlaConfig, SlaResult, Env, u32_mod}
use noc_iq_contracts.Storage.{Storage, Result, ok, err, panic}
use noc_iq_contracts.Config.Soundness.{IsSound}
use noc_iq_contracts.Config.Accept.{canonical_cases}
use noc_iq_contracts.Config.Severity.{canonical_severity_index}
use noc_iq_contracts.Batch.{
  BatchRequest, BatchResult, Tally, empty_tally, tally_ok, tally_err, tally_one, process_with,
  process_single, process_all, run_batch, validate_batch, batch_calculate, summary_of,
}
use noc_iq_contracts.Batch.Effect.{after_batch}
use noc_iq_contracts.Guards.{require_operator, require_not_paused}

-- With a threshold above 0 one request is computed without a panic.
process_with-total :
    (e : Env) (m : ConfigMap) (req : BatchRequest) (cfg : SlaConfig)
    → 0 < cfg.threshold_minutes
    → process_with e m req (some cfg) ≢ panic
unfolding process_with
process_with-total e m req cfg h p = ground arith

process_single-total :
    (e : Env) (m : ConfigMap) (req : BatchRequest) → IsSound m → process_single e m req ≢ panic
unfolding process_single canonical_severity_index
process_single-total e m req v p = elim (canonical_cases req.severity) [
  | inl q ↦ ground (
    arith,
    v.has_critical,
    process_with-total e m req v.critical v.limits.critical_ok.threshold_pos,
  )
  | inr (inl q) ↦
      ground (arith, v.has_high, process_with-total e m req v.high v.limits.high_ok.threshold_pos)
  | inr (inr (inl q)) ↦
      ground
        (arith, v.has_medium, process_with-total e m req v.medium v.limits.medium_ok.threshold_pos)
  | inr (inr (inr (inl q))) ↦
      ground (arith, v.has_low, process_with-total e m req v.low v.limits.low_ok.threshold_pos)
  | inr (inr (inr (inr q))) ↦ ground (
    arith,
    eq_iff "critical" req.severity,
    eq_iff req.severity "critical",
    eq_iff "high" req.severity,
    eq_iff req.severity "high",
    eq_iff "medium" req.severity,
    eq_iff req.severity "medium",
    eq_iff "low" req.severity,
    eq_iff req.severity "low",
  )
]

-- What the loop keeps: one result for each request, in order, and counters that add up.
pub record Accounted (reqs : List BatchRequest) (t u : Tally) : Type 0 where
  pub in_order :
      map (λ r. r.outage_id) u.results
      ≡ map (λ r. r.outage_id) t.results ++ map (λ r. r.outage_id) reqs
  pub answered : u.succeeded + u.failed ≡ t.succeeded + t.failed + length reqs
  pub classified : u.met_count + u.violation_count ≡ u.succeeded

-- One request's step, short of a panic.
tally_one-Accounted :
    (req : BatchRequest) (r : Result SlaResult) (t : Tally)
    → r ≢ panic
    → t.succeeded + t.failed + 1 < u32_mod
    → t.met_count + t.violation_count ≡ t.succeeded
    → (u : Tally) × (tally_one req r t ≡ ok u) × Accounted (req ∷ []) t u
unfolding tally_one
tally_one-Accounted req (ok r) t np room split = (
  tally_ok req r t,
  refl,
  record {
    in_order = map-append (λ (x : BatchResult). x.outage_id) t.results _;
    answered = ground arith;
    classified = ground arith;
  },
)
tally_one-Accounted req (err x) t np room split = (
  tally_err req x t,
  refl,
  record {
    in_order = map-append (λ (x : BatchResult). x.outage_id) t.results _;
    answered = ground arith;
    classified = ground arith;
  },
)
tally_one-Accounted req panic t np room split = absurd (np refl)

join :
    {req : BatchRequest} {reqs : List BatchRequest} {t u w : Tally}
    → Accounted (req ∷ []) t u
    → Accounted reqs u w
    → Accounted (req ∷ reqs) t w
join {req} {reqs} {t} {u} {w} a b = record {
  in_order =
      b.in_order
      ∙ ap (λ ids. ids ++ map (λ r. r.outage_id) reqs) a.in_order
      ∙ append_assoc _ (req.outage_id ∷ []) (map (λ r. r.outage_id) reqs);
  answered = omega (arith, a.answered, b.answered);
  classified = b.classified;
}

process_all-Accounted :
    (e : Env) (m : ConfigMap) (reqs : List BatchRequest) (t : Tally)
    → IsSound m
    → t.succeeded + t.failed + length reqs < u32_mod
    → t.met_count + t.violation_count ≡ t.succeeded
    → (u : Tally) × (process_all e m reqs t ≡ ok u) × Accounted reqs t u
unfolding process_all
process_all-Accounted e m [] t v room split =
    (t, refl, record { in_order = sym (append-nil _); answered = omega arith; classified = split })
process_all-Accounted e m (req ∷ reqs) t v room split =
    let (u, p, a) =
      tally_one-Accounted req (process_single e m req) t (process_single-total e m req v)
        (omega arith) split in
    let (w, q, b) = process_all-Accounted e m reqs u v (omega (arith, a.answered)) a.classified in
    (w, rw p q, join a b)

-- Over a sound configuration map the loop over fewer than 2^32 requests ends without a panic: it
-- gives one result for each request, in the order of the requests, every request counts as
-- succeeded or failed, and every success as met or violated.
pub run_batch-Accounted :
    (reqs : List BatchRequest) (m : ConfigMap) (e : Env) (s : Storage)
    → s.config ≡ some m
    → IsSound m
    → length reqs < u32_mod
    → (t : Tally) × (run_batch reqs e s ≡ (ok t, s))
      × (map (λ r. r.outage_id) t.results ≡ map (λ r. r.outage_id) reqs)
      × (t.succeeded + t.failed ≡ length reqs)
      × (t.met_count + t.violation_count ≡ t.succeeded)
unfolding run_batch
run_batch-Accounted reqs m e s stored v room =
    let (t, p, a) = process_all-Accounted e m reqs empty_tally v (omega arith) refl in
    (t, rw (stored, p) refl, a.in_order, omega (arith, a.answered), a.classified)

-- A batch that passes its validation and comes from the operator of a running contract with a
-- sound configuration map succeeds: it returns the summary and the results of its loop, one for
-- each request in order, publishes one event, and leaves the rest of the storage as it was.
batch_calculate_succeeds :
    (c : Address) (reqs : List BatchRequest) (m : ConfigMap) (e : Env) (s : Storage) {n : ℕ}
    → validate_batch reqs e s ≡ (ok n, s)
    → length reqs ≤ 50
    → s.operator ≡ some c
    → unwrap_or s.paused false ≡ false
    → s.config ≡ some m
    → IsSound m
    → (t : Tally) × (batch_calculate c reqs e s
        ≡ (ok (summary_of reqs t, t.results), after_batch c reqs t s))
      × (map (λ r. r.outage_id) t.results ≡ map (λ r. r.outage_id) reqs)
unfolding batch_calculate after_batch require_operator require_not_paused
batch_calculate_succeeds c reqs m e s valid few operator running stored v =
    let (t, p, order, answered, classified) =
      run_batch-Accounted reqs m e s stored v (omega arith) in
    (t, ground (arith, valid, p), order)
