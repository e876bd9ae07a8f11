-- ===== src/Calc/Resubmit.antt =====
-- `calculate_sla` (sla_calculator/src/lib.rs) under an outage id that was submitted before.
use noc_iq_contracts.Base.{
  ℕ, ◌<◌, ◌≡◌, ◌∙◌, ap, ◌++◌, ◌&&◌, Option, none, some, List, [], ◌∷◌, arith, unwrap_or, eq_iff,
  ◌==◌, if◌then◌else◌,
}
use noc_iq_contracts.Types.{
  Address, Symbol, SlaConfig, SlaResult, Env, lookup, duplicate_outage_input,
}
use noc_iq_contracts.Storage.{Storage, Result, ok, err}
use noc_iq_contracts.Calc.Outcome.{compute_result}
use noc_iq_contracts.Calc.Submit.{
  calculate_sla, config_and_hash, finish, resubmit, latest, stored_history, push_bounded, retention,
  max_duration,
}
use noc_iq_contracts.Calc.View.{effective}
use noc_iq_contracts.Calc.Access.{
  IsAuthorized, IsAuthorized-authorize, after_cap, after_cap-history, after_record, cap_duration-eq,
  calculate_sla-Submitted, calculate_sla-IsAuthorized,
}

-- A result repeats the inputs that it was computed from.
pub compute_result-echoes :
    (i : Symbol) (m : ℕ) (cfg : SlaConfig) (hash : List ℕ) (now : ℕ) {r : SlaResult}
    → compute_result i m cfg hash now ≡ ok r
    → (r.outage_id ≡ i) × (r.mttr_minutes ≡ m) × (r.threshold_minutes ≡ cfg.threshold_minutes)
unfolding compute_result
compute_result-echoes i m cfg hash now h = ground arith

-- Whether the computation succeeds does not depend on the hash and the time.
compute_result_later :
    (i : Symbol) (m : ℕ) (cfg : SlaConfig) (hash hash' : List ℕ) (now now' : ℕ) {r : SlaResult}
    → compute_result i m cfg hash now ≡ ok r
    → compute_result i m cfg hash' now'
      ≡ ok (record r { config_version_hash = hash'; recorded_at = now' })
unfolding compute_result
compute_result_later i m cfg hash hash' now now' h = ground arith

latest-append :
    (i : Symbol) (xs : List SlaResult) (r : SlaResult) (found : Option SlaResult)
    → r.outage_id ≡ i
    → latest i (xs ++ (r ∷ [])) found ≡ some r
unfolding latest
latest-append i [] r found h = ground (arith, eq_iff r.outage_id i)
latest-append i (x ∷ xs) r found h = latest-append i xs r _ h

-- The entry just pushed is the latest of its outage, whatever was trimmed.
pub latest-push_bounded :
    (i : Symbol) (limit : ℕ) (xs : List SlaResult) (r : SlaResult)
    → 0 < limit
    → r.outage_id ≡ i
    → latest i (push_bounded limit xs r) none ≡ some r
unfolding push_bounded
latest-push_bounded i limit [] r l h = ground (arith, latest-append i [] r none h)
latest-push_bounded i limit (x ∷ xs) r l h =
    ground (arith, latest-append i xs r none h, latest-append i (x ∷ xs) r none h)

-- A second entry under an id: the stored one if its duration and threshold are the same.
abbrev pub replayed : ℕ → SlaConfig → SlaResult → Result SlaResult
replayed mttr cfg prev =
    if (prev.mttr_minutes == mttr) && (prev.threshold_minutes == cfg.threshold_minutes)
    then ok prev
    else err duplicate_outage_input

finish_repeat :
    (i k : Symbol) (cfg : SlaConfig) (hash : List ℕ) (mttr : ℕ) (e : Env) (s : Storage)
    {r prev : SlaResult}
    → compute_result i mttr cfg hash e.timestamp ≡ ok r
    → latest i (stored_history s) none ≡ some prev
    → finish i k cfg hash mttr e s ≡ (replayed mttr cfg prev, s)
unfolding finish resubmit
finish_repeat i k cfg hash mttr e s c l = ground arith

-- Authorised, under an id that the history holds: the stored result comes back if the capped
-- duration and the threshold are what it was computed from, and the call is refused as a duplicate
-- if not. Nothing is recorded either way, but for the event of a capped duration.
pub calculate_sla_repeat :
    (caller : Address) (i k : Symbol) (mttr : ℕ) (e : Env) (s : Storage) {x : SlaConfig × List ℕ}
    {r prev : SlaResult}
    → IsAuthorized caller k s
    → config_and_hash k e s ≡ (ok x, s)
    → compute_result i (effective (max_duration s) mttr) x.0 x.1 e.timestamp ≡ ok r
    → latest i (stored_history s) none ≡ some prev
    → calculate_sla caller i k mttr e s
      ≡ (replayed (effective (max_duration s) mttr) x.0 prev, after_cap caller i mttr s)
unfolding calculate_sla
calculate_sla_repeat caller i k mttr e s {x} a c v l =
    rw (IsAuthorized-authorize caller i k e s a, c, cap_duration-eq caller i mttr e s)
      (finish_repeat i k x.0 x.1 _ e _ v (rw after_cap-history l))

abbrev digest : Env → Storage → List ℕ
digest e s = e.config_digest (λ j. lookup j (unwrap_or s.config []))

config_and_hash_again :
    (k : Symbol) (e e' : Env) (s t : Storage) {cfg : SlaConfig} {hash : List ℕ}
    → config_and_hash k e s ≡ (ok (cfg, hash), s)
    → t.config ≡ s.config
    → config_and_hash k e' t ≡ (ok (cfg, digest e' t), t)
unfolding config_and_hash
config_and_hash_again k e e' s t h same = ground arith

after_record-IsAuthorized :
    (caller c : Address) (i k : Symbol) (mttr : ℕ) (r : SlaResult) (s : Storage)
    → IsAuthorized caller k s
    → IsAuthorized caller k (after_record k r (after_cap c i mttr s))
unfolding after_record after_cap
after_record-IsAuthorized caller c i k mttr r s a = ground arith

after_record-fields :
    (c : Address) (i k : Symbol) (mttr : ℕ) (r : SlaResult) (s : Storage)
    → let t = after_record k r (after_cap c i mttr s) in
      (t.config ≡ s.config)
      × (max_duration t ≡ max_duration s)
      × (stored_history t ≡ push_bounded (retention s) (stored_history s) r)
unfolding after_record after_cap max_duration
after_record-fields c i k mttr r s = ground arith

replayed_self :
    (mttr : ℕ) (cfg : SlaConfig) (r : SlaResult)
    → r.mttr_minutes ≡ mttr
    → r.threshold_minutes ≡ cfg.threshold_minutes
    → replayed mttr cfg r ≡ ok r
replayed_self mttr cfg r h k = ground arith

-- The second call, in a storage `t` that holds the result under the same limits.
replay :
    (caller : Address) (i k : Symbol) (mttr : ℕ) (e later : Env) (s t : Storage) {cfg : SlaConfig}
    {hash : List ℕ} {r : SlaResult}
    → config_and_hash k e s ≡ (ok (cfg, hash), s)
    → compute_result i (effective (max_duration s) mttr) cfg hash e.timestamp ≡ ok r
    → 0 < retention s
    → IsAuthorized caller k t
    → t.config ≡ s.config
    → max_duration t ≡ max_duration s
    → stored_history t ≡ push_bounded (retention s) (stored_history s) r
    → calculate_sla caller i k mttr later t ≡ (ok r, after_cap caller i mttr t)
replay caller i k mttr e later s t {cfg} {hash} {r} found computed lim a config limit history =
    let (id, m, th) = compute_result-echoes i _ cfg hash e.timestamp computed in
    let again : SlaResult = record r {
      config_version_hash = digest later t;
      recorded_at = later.timestamp;
    } in
    calculate_sla_repeat caller i k mttr later t {r = again} {prev = r} a
      (config_and_hash_again k e later s t found config)
      (rw limit
        (compute_result_later i _ cfg hash (digest later t) e.timestamp later.timestamp computed))
      (rw history (latest-push_bounded i (retention s) (stored_history s) r lim id))
    ∙ ap (λ x. (x, after_cap caller i mttr t)) (rw limit (replayed_self _ cfg r m th))

-- After a first submission that succeeded, the same call at any later ledger returns the same
-- result and records nothing: history, statistics and configuration stay as the first call left
-- them. The retention limit is above 0, as every limit that can be set is.
pub calculate_sla-idempotent :
    (caller : Address) (i k : Symbol) (mttr : ℕ) (e later : Env) (s t : Storage) {r : SlaResult}
    → 0 < retention s
    → latest i (stored_history s) none ≡ none
    → calculate_sla caller i k mttr e s ≡ (ok r, t)
    → calculate_sla caller i k mttr later t ≡ (ok r, after_cap caller i mttr t)
calculate_sla-idempotent caller i k mttr e later s t {r} lim fresh h =
    let a = calculate_sla-IsAuthorized caller i k mttr e s h in
    let d = calculate_sla-Submitted caller i k mttr e s h fresh in
    let (config, limit, history) = after_record-fields caller i k mttr r s in
    replay caller i k mttr e later s t d.found d.computed lim
      (rw d.stored (after_record-IsAuthorized caller caller i k mttr r s a)) (rw d.stored config)
      (rw d.stored limit) (rw d.stored history)
