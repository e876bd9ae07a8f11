-- ===== src/Calc/Recorded.antt =====
-- What a first submission stores (sla_calculator/src/lib.rs), said without the functions of the source.
use mathlib.Core.List.{append_assoc}
use noc_iq_contracts.Base.{
  ℕ, zero, suc, ◌+◌, ◌-◌, ◌*◌, ◌<◌, ◌≡◌, ◌∙◌, ap, refl, true, false, some, none, List, [], ◌∷◌,
  ◌++◌, arith, any, drop, length, ltb, str_eq, unwrap_or, if◌then◌else◌, Bool-cases, inl, inr,
  length-append,
}
use noc_iq_contracts.Base.Int.{pos, pos_part, ◌+ℤ◌, neg_ℤ, saturate, saturating_add, wrapping_neg}
use noc_iq_contracts.Types.{
  Address, Symbol, SlaConfig, SlaResult, SlaStats, u32_mod, saturating_u64,
}
use noc_iq_contracts.Storage.{
  Storage, Event, duration_capped, sla_violated, sla_met, sla_calculated, settlement_intent,
}
use noc_iq_contracts.Lifecycle.{zero_stats}
use noc_iq_contracts.Calc.Submit.{max_duration, latest, push_bounded, next_stats}
use noc_iq_contracts.Calc.Amounts.{IsBounded, pos_part-le, mul_bound}
use noc_iq_contracts.Calc.Correct.{exact_result, exact_amount}
use noc_iq_contracts.Calc.Access.{after_cap, after_record}

-- The duration that counts: the stored limit, or a week without one, cuts it.
abbrev pub counted : Storage → ℕ → ℕ
counted s mttr =
    let limit = unwrap_or s.max_outage_duration 10080 in if ltb limit mttr then limit else mttr

-- The history after a new entry: a full one loses its oldest entry.
abbrev pub extended : SlaResult → Storage → List SlaResult
extended r s =
    let history = unwrap_or s.history [] in
    drop (if ltb (length history) (unwrap_or s.retention_limit 1000) then 0 else 1) history
    ++ (r ∷ [])

-- The statistics after an outage of `d` minutes: one calculation more, and either one violation more
-- and its penalty, or its reward. Counters stop at the largest u64, sums at the bounds of i128.
abbrev pub totalled : ℕ → SlaConfig → Storage → SlaStats
totalled d cfg s =
    let st : SlaStats = unwrap_or s.stats (record {
      total_calculations = 0;
      total_violations = 0;
      total_rewards = pos 0;
      total_penalties = pos 0;
    }) in
    let penalty = pos ((d - cfg.threshold_minutes) * pos_part cfg.penalty_per_minute) in
    if ltb cfg.threshold_minutes d
    then record {
      total_calculations = saturating_u64 (st.total_calculations + 1);
      total_violations = saturating_u64 (st.total_violations + 1);
      total_rewards = st.total_rewards;
      total_penalties = saturate (st.total_penalties +ℤ penalty);
    }
    else record {
      total_calculations = saturating_u64 (st.total_calculations + 1);
      total_violations = st.total_violations;
      total_rewards = saturate (st.total_rewards +ℤ exact_amount d cfg);
      total_penalties = st.total_penalties;
    }

-- The notice of a cut duration.
abbrev pub cut_notice : Address → Symbol → ℕ → Storage → List Event
cut_notice caller i mttr s =
    let limit = unwrap_or s.max_outage_duration 10080 in
    if ltb limit mttr then duration_capped caller i mttr limit ∷ [] else []

-- The events of a result.
abbrev pub published : Symbol → SlaResult → List Event
published k r =
    (if ltb r.threshold_minutes r.mttr_minutes
      then sla_violated r.outage_id r.mttr_minutes r.threshold_minutes r.amount
      else sla_met r.outage_id r.mttr_minutes r.threshold_minutes r.amount)
    ∷ sla_calculated k r.outage_id r.status r.payment_type r.rating r.mttr_minutes
        r.threshold_minutes r.amount
    ∷ settlement_intent k r.outage_id r.status r.payment_type r.amount r.config_version_hash
        r.recorded_at
    ∷ []

push_bounded-lem :
    (limit : ℕ) (history : List SlaResult) (r : SlaResult)
    → 0 < limit
    → push_bounded limit history r
      ≡ drop (if ltb (length history) limit then 0 else 1) history ++ (r ∷ [])
unfolding push_bounded
push_bounded-lem limit [] r h = ground arith
push_bounded-lem limit (x ∷ xs) r h = ground (arith, length-append xs (r ∷ []))

pub latest-none :
    (i : Symbol) (history : List SlaResult)
    → any (λ (r : SlaResult). str_eq r.outage_id i) history ≡ false
    → latest i history none ≡ none
unfolding latest
latest-none i [] h = refl
latest-none i (r ∷ rs) h = ground (arith, latest-none i rs)

-- The negated amount of a violation is its penalty.
penalty_lem :
    (d : ℕ) (cfg : SlaConfig)
    → IsBounded cfg
    → d < u32_mod
    → ltb cfg.threshold_minutes d ≡ true
    → wrapping_neg (exact_amount d cfg)
      ≡ pos ((d - cfg.threshold_minutes) * pos_part cfg.penalty_per_minute)
unfolding exact_amount wrapping_neg neg_ℤ
penalty_lem zero cfg b h v = ground arith
penalty_lem (suc m) cfg b h v = ground (
  arith,
  mul_bound (suc m - cfg.threshold_minutes) (pos_part cfg.penalty_per_minute) u32_mod 10000,
  pos_part-le cfg.penalty_per_minute 10000,
)

exact_result-status :
    (i : Symbol) (d : ℕ) (cfg : SlaConfig) (hash : List ℕ) (now : ℕ)
    → str_eq (exact_result i d cfg hash now).status "viol" ≡ ltb cfg.threshold_minutes d
unfolding exact_result
exact_result-status i d cfg hash now = elim (Bool-cases (ltb cfg.threshold_minutes d)) [
  | inl late ↦ rw late refl
  | inr met ↦ rw met refl
]

exact_result-amount :
    (i : Symbol) (d : ℕ) (cfg : SlaConfig) (hash : List ℕ) (now : ℕ)
    → (exact_result i d cfg hash now).amount ≡ exact_amount d cfg
unfolding exact_result
exact_result-amount i d cfg hash now = refl

totalled_lem :
    (d : ℕ) (cfg : SlaConfig) (s : Storage)
    → IsBounded cfg
    → d < u32_mod
    → (if ltb cfg.threshold_minutes d
        then next_stats false
            (pos 0)
            (wrapping_neg (exact_amount d cfg))
            (unwrap_or s.stats zero_stats)
        else next_stats true (exact_amount d cfg) (pos 0) (unwrap_or s.stats zero_stats))
      ≡ totalled d cfg s
unfolding next_stats saturating_add
totalled_lem d cfg s b h = elim (Bool-cases (ltb cfg.threshold_minutes d)) [
  | inl late ↦ rw (late, penalty_lem d cfg b h late) refl
  | inr met ↦ rw met refl
]

three_events :
    (xs : List Event) (a b c : Event)
    → xs ++ (a ∷ []) ++ (b ∷ []) ++ (c ∷ []) ≡ xs ++ (a ∷ b ∷ c ∷ [])
three_events [] a b c = refl
three_events (x ∷ xs) a b c = ap (λ l. x ∷ l) (three_events xs a b c)

after_record-lem :
    (i k : Symbol) (d : ℕ) (cfg : SlaConfig) (hash : List ℕ) (now : ℕ) (s : Storage)
    → IsBounded cfg
    → d < u32_mod
    → 0 < unwrap_or s.retention_limit 1000
    → let r = exact_result i d cfg hash now in
      after_record k r s ≡ record s {
        history = some (extended r s);
        stats = some (totalled d cfg s);
        events = s.events ++ published k r;
      }
unfolding after_record exact_result
after_record-lem i k d cfg hash now s b small kept =
    let r = exact_result i d cfg hash now in
    rw
      (
        exact_result-status i d cfg hash now,
        totalled_lem d cfg s b small,
        push_bounded-lem (unwrap_or s.retention_limit 1000) (unwrap_or s.history []) r kept,
      )
      (ap
        (λ events. record s {
          history = some (extended r s);
          stats = some (totalled d cfg s);
          events = events;
        })
        (three_events s.events _ _ _))

pub after_cap-record :
    (caller : Address) (i k : Symbol) (mttr d : ℕ) (cfg : SlaConfig) (hash : List ℕ) (now : ℕ)
    (s : Storage)
    → IsBounded cfg
    → d < u32_mod
    → 0 < unwrap_or s.retention_limit 1000
    → let r = exact_result i d cfg hash now in
      after_record k r (after_cap caller i mttr s) ≡ record s {
        history = some (extended r s);
        stats = some (totalled d cfg s);
        events = s.events ++ (cut_notice caller i mttr s ++ published k r);
      }
unfolding after_cap max_duration
after_cap-record caller i k mttr d cfg hash now s b small kept =
    let limit = unwrap_or s.max_outage_duration 10080 in
    let r = exact_result i d cfg hash now in
    let notice = duration_capped caller i mttr limit in
    elim (Bool-cases (ltb limit mttr)) [
      | inl cut ↦ rw cut (
          after_record-lem i k d cfg hash now (record s { events = s.events ++ (notice ∷ []) }) b
            small kept
          ∙ ap
              (λ events. record s {
                history = some (extended r s);
                stats = some (totalled d cfg s);
                events = events;
              })
              (append_assoc s.events (notice ∷ []) (published k r)))
      | inr whole ↦ rw whole (after_record-lem i k d cfg hash now s b small kept)
    ]
