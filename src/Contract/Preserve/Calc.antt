-- ===== src/Contract/Preserve/Calc.antt =====
-- The invariant under submissions, single and in batches (sla_calculator/src).
use noc_iq_contracts.Base.{
  ℕ, ◌+◌, ◌≤◌, ◌≡◌, inl, inr, refl, none, List, [], ◌∷◌, ◌++◌, arith, length, length-drop,
  length-append, Option-cases,
}
use noc_iq_contracts.Types.{Address, Symbol, SlaConfig, SlaResult, Env}
use noc_iq_contracts.Storage.{Storage, Result, ok, err, panic, commit}
use noc_iq_contracts.Calc.Submit.{
  max_duration, retention, stored_history, push_bounded, calculate_sla, next_stats, latest,
  resubmit, finish,
}
use noc_iq_contracts.Calc.Access.{finish_fresh, after_cap, after_record, calculate_sla-parts}
use noc_iq_contracts.Batch.{BatchRequest, Tally, batch_calculate}
use noc_iq_contracts.Batch.Effect.{after_batch, batch_calculate-ok}
use noc_iq_contracts.Contract.Invariant.{Inv}

-- A full history stays at its length, and a short one grows by one.
length-push_bounded-le :
    (limit bound : ℕ) (xs : List SlaResult) (r : SlaResult)
    → length xs ≤ bound
    → limit ≤ bound
    → (length (push_bounded limit xs r) ≤ bound)
      × (length (push_bounded limit xs r) ≤ length xs + 1)
unfolding push_bounded
length-push_bounded-le limit bound xs r h k =
    ground (arith, length-append xs (r ∷ []), length-drop 1 (xs ++ (r ∷ [])))

after_cap-Inv : (c : Address) (i : Symbol) (m : ℕ) (s : Storage) → Inv s → Inv (after_cap c i m s)
unfolding after_cap max_duration
after_cap-Inv c i m s v = ground arith

after_record-Inv : (k : Symbol) (r : SlaResult) (s : Storage) → Inv s → Inv (after_record k r s)
unfolding after_record max_duration next_stats
after_record-Inv k r s v =
    ground (arith, length-push_bounded-le (retention s) 5000 (stored_history s) r)

module _ (e : Env) (s : Storage) (v : Inv s) where
  -- A submission that succeeds under a known id leaves the storage after the cap.
  finish-Inv :
      (i k : Symbol) (cfg : SlaConfig) (hash : List ℕ) (m : ℕ) {r : SlaResult} {t : Storage}
      → finish i k cfg hash m e s ≡ (ok r, t)
      → Inv t
  unfolding finish resubmit
  finish-Inv i k cfg hash m h = elim (Option-cases (latest i (stored_history s) none)) [
    | inl fresh ↦
        let (computed, stored) = finish_fresh i k cfg hash m e s h fresh in
        rw stored (after_record-Inv k _ s v)
    | inr (prev, known) ↦ ground (arith, v)
  ]

keep :
    {A : Type 0} (s : Storage) (r : Result A × Storage)
    → Inv s
    → ((a : A) (t : Storage) → r ≡ (ok a, t) → Inv t)
    → Inv (commit s r)
keep s (ok a, t) v h = h a t refl
keep s (err x, t) v h = v
keep s (panic, t) v h = v

pub calculate_sla-Inv :
    (e : Env) (s : Storage) (v : Inv s) (c : Address) (i k : Symbol) (m : ℕ)
    → Inv (commit s (calculate_sla c i k m e s))
calculate_sla-Inv e s v c i k m = keep s _ v λ r t h.
    let (x, found, rest) = calculate_sla-parts c i k m e s h in
    finish-Inv e (after_cap c i m s) (after_cap-Inv c i m s v) i k x.0 x.1 _ rest

after_batch-Inv :
    (c : Address) (reqs : List BatchRequest) (t : Tally) (s : Storage)
    → Inv s
    → Inv (after_batch c reqs t s)
unfolding after_batch max_duration
after_batch-Inv c reqs t s v = ground arith

pub batch_calculate-Inv :
    (e : Env) (s : Storage) (v : Inv s) (c : Address) (reqs : List BatchRequest)
    → Inv (commit s (batch_calculate c reqs e s))
batch_calculate-Inv e s v c reqs = keep s _ v λ r u h.
    let (t, run, result, after, operator, running) = batch_calculate-ok c reqs e s h in
    rw after (after_batch-Inv c reqs t s v)
