-- ===== src/Calc/Access.antt =====
-- `calculate_sla` (sla_calculator/src/lib.rs) step by step: its checks, and what each part stores.
use noc_iq_contracts.Base.{
  ℕ, ◌≡◌, ◌++◌, true, false, none, some, List, [], ◌∷◌, inl, inr, arith, unwrap_or, str_eq, ltb,
  if◌then◌else◌,
}
use noc_iq_contracts.Base.Int.{pos, wrapping_neg}
use noc_iq_contracts.Types.{Address, Symbol, SlaConfig, SlaResult, Env}
use noc_iq_contracts.Storage.{
  sla_violated, sla_met, sla_calculated, settlement_intent, duration_capped, Storage, ok, >>=-eq-ok,
  Result-cases,
}
use noc_iq_contracts.Config.Severity.{is_canonical_severity}
use noc_iq_contracts.Lifecycle.{zero_stats}
use noc_iq_contracts.Calc.Outcome.{compute_result}
use noc_iq_contracts.Calc.Submit.{
  calculate_sla, authorize, config_and_hash, cap_duration, finish, record_new, latest,
  stored_history, push_bounded, retention, max_duration, next_stats,
}
use noc_iq_contracts.Calc.View.{calculate_sla_view, effective}

-- What the checks at the head establish.
pub record IsAuthorized (caller : Address) (k : Symbol) (s : Storage) : Type 0 where
  pub current : s.version ≡ some 1
  pub running : unwrap_or s.paused false ≡ false
  pub is_operator : s.operator ≡ some caller
  pub canonical : is_canonical_severity k ≡ true

pub authorize-ok :
    (caller : Address) (i k : Symbol) (e : Env) (s : Storage) {u : Storage}
    → authorize caller i k e s ≡ (ok tt, u)
    → (s ≡ u) × IsAuthorized caller k s
unfolding authorize
authorize-ok caller i k e s h = ground arith

pub IsAuthorized-authorize :
    (caller : Address) (i k : Symbol) (e : Env) (s : Storage)
    → IsAuthorized caller k s
    → authorize caller i k e s ≡ (ok tt, s)
unfolding authorize
IsAuthorized-authorize caller i k e s v = ground arith

pub config_and_hash-ok :
    (k : Symbol) (e : Env) (s : Storage) {x : SlaConfig × List ℕ} {u : Storage}
    → config_and_hash k e s ≡ (ok x, u)
    → s ≡ u
unfolding config_and_hash
config_and_hash-ok k e s h = ground arith

-- The storage after the duration was capped.
unfoldable pub after_cap : Address → Symbol → ℕ → Storage → Storage
after_cap caller i mttr s =
    if ltb (max_duration s) mttr
    then record s { events = s.events ++ (duration_capped caller i mttr (max_duration s) ∷ []) }
    else s

pub cap_duration-eq :
    (caller : Address) (i : Symbol) (mttr : ℕ) (e : Env) (s : Storage)
    → cap_duration caller i mttr e s
      ≡ (ok (effective (max_duration s) mttr), after_cap caller i mttr s)
unfolding cap_duration after_cap
cap_duration-eq caller i mttr e s = ground arith

-- The storage after a first submission.
unfoldable pub after_record : Symbol → SlaResult → Storage → Storage
after_record k r s =
    let violated = str_eq r.status "viol" in
    record s {
      history = some (push_bounded (retention s) (stored_history s) r);
      stats = some (
          if violated
          then next_stats false (pos 0) (wrapping_neg r.amount) (unwrap_or s.stats zero_stats)
          else next_stats true r.amount (pos 0) (unwrap_or s.stats zero_stats));
      events =
          s.events
          ++ ((if violated
                then sla_violated r.outage_id r.mttr_minutes r.threshold_minutes r.amount
                else sla_met r.outage_id r.mttr_minutes r.threshold_minutes r.amount)
              ∷ [])
          ++ (sla_calculated k r.outage_id r.status r.payment_type r.rating r.mttr_minutes
                r.threshold_minutes r.amount
              ∷ [])
          ++ (settlement_intent k r.outage_id r.status r.payment_type r.amount r.config_version_hash
                r.recorded_at
              ∷ []);
    }

pub record_new-eq :
    (k : Symbol) (r : SlaResult) (e : Env) (s : Storage)
    → record_new k r e s ≡ (ok r, after_record k r s)
unfolding record_new after_record
record_new-eq k r e s = ground arith

pub finish_fresh :
    (i k : Symbol) (cfg : SlaConfig) (hash : List ℕ) (mttr : ℕ) (e : Env) (s : Storage)
    {r : SlaResult} {t : Storage}
    → finish i k cfg hash mttr e s ≡ (ok r, t)
    → latest i (stored_history s) none ≡ none
    → (compute_result i mttr cfg hash e.timestamp ≡ ok r) × (t ≡ after_record k r s)
unfolding finish
finish_fresh i k cfg hash mttr e s h fresh =
    elim (Result-cases (compute_result i mttr cfg hash e.timestamp)) [
      | inl (a, p) ↦ ground (arith, record_new-eq k a e s)
      | inr q ↦ ground arith
    ]

-- A submission that succeeds had the current version, was not paused, came from the operator, and
-- named a canonical severity.
pub calculate_sla-IsAuthorized :
    (caller : Address) (i k : Symbol) (mttr : ℕ) (e : Env) (s : Storage) {r : SlaResult}
    {t : Storage}
    → calculate_sla caller i k mttr e s ≡ (ok r, t)
    → IsAuthorized caller k s
unfolding calculate_sla
calculate_sla-IsAuthorized caller i k mttr e s h =
    let (a, u, p, q) = >>=-eq-ok (authorize caller i k) _ e s h in (authorize-ok caller i k e s p).1

module _ (caller : Address) (i k : Symbol) (mttr : ℕ) (e : Env) (s : Storage) where
  -- The parts of a submission that succeeds.
  pub calculate_sla-parts :
      {r : SlaResult} {t : Storage}
      → calculate_sla caller i k mttr e s ≡ (ok r, t)
      → (x : SlaConfig × List ℕ) × (config_and_hash k e s ≡ (ok x, s))
        × (finish i k x.0 x.1 (effective (max_duration s) mttr) e (after_cap caller i mttr s)
            ≡ (ok r, t))
  unfolding calculate_sla
  calculate_sla-parts h =
      let (a, u, p, q) = >>=-eq-ok (authorize caller i k) _ e s h in
      let (x, w, p', q') = >>=-eq-ok (config_and_hash k) _ e u q in
      let su = (authorize-ok caller i k e s p).0 in
      let uw = config_and_hash-ok k e u p' in
      let done = rw (cap_duration-eq caller i mttr e w) at q' in (x, cc, cc)

-- What a first submission does: the storage read through the configuration, the result computed
-- from the capped duration, and the storage with the new entry, statistics and events.
pub record Submitted (caller : Address) (i k : Symbol) (mttr : ℕ) (e : Env) (s : Storage)
    (r : SlaResult) (t : Storage) : Type 0 where
  pub cfg : SlaConfig
  pub hash : List ℕ
  pub found : config_and_hash k e s ≡ (ok (cfg, hash), s)
  pub computed : compute_result i (effective (max_duration s) mttr) cfg hash e.timestamp ≡ ok r
  pub stored : t ≡ after_record k r (after_cap caller i mttr s)

module _ (caller : Address) (i k : Symbol) (mttr : ℕ) (e : Env) (s : Storage) where
  pub after_cap-history : stored_history (after_cap caller i mttr s) ≡ stored_history s
  unfolding after_cap
  after_cap-history = ground arith

  -- A submission that succeeds under an outage id that the history does not hold is recorded.
  pub calculate_sla-Submitted :
      {r : SlaResult} {t : Storage}
      → calculate_sla caller i k mttr e s ≡ (ok r, t)
      → latest i (stored_history s) none ≡ none
      → Submitted caller i k mttr e s r t
  calculate_sla-Submitted h fresh =
      let (x, found, rest) = calculate_sla-parts caller i k mttr e s h in
      let (computed, stored) = finish_fresh i k x.0 x.1 _ e _ rest (rw after_cap-history fresh) in
      record { cfg = x.0; hash = x.1; found = found; computed = computed; stored = stored }

  -- The view returns, for the same arguments and the same ledger, the result that a first
  -- submission stores, and changes nothing.
  calculate_sla-eq-view :
      {r : SlaResult} {t : Storage}
      → calculate_sla caller i k mttr e s ≡ (ok r, t)
      → latest i (stored_history s) none ≡ none
      → calculate_sla_view i k mttr e s ≡ (ok r, s)
  unfolding calculate_sla_view
  calculate_sla-eq-view h fresh =
      let done = calculate_sla-Submitted h fresh in
      ground (arith, calculate_sla-IsAuthorized caller i k mttr e s h, done.found, done.computed)
