-- ===== src/ForceMajeure/Excuse.antt =====
-- How long an outage is excused (sla_calculator/src/force_majeure.rs).
use noc_iq_contracts.Base.{
  ℕ, ◌&&◌, ◌+◌, ◌-◌, ◌≤◌, ◌<◌, ◌≡◌, ◌==◌, true, not, [], leb, ltb, Option-cases, Bool-cases, inl,
  inr, arith,
}
use noc_iq_contracts.Types.{Symbol, lookup}
use noc_iq_contracts.MapLaws.{AllValues, AllValues-insert, AllValues-lookup}
use noc_iq_contracts.Effect.Reach.{Reach, Reach-keeps}
use noc_iq_contracts.ForceMajeure.{
  ForceMajeureRecord, ExcuseStore, ExcuseOrder, record_order, close_order, run_order,
  record_force_majeure, close_force_majeure, excused_seconds, new_record, max_excuse_s,
}

-- A stored record excuses at most a day, and is closed at its end or later.
pub record IsBrief (r : ForceMajeureRecord) : Type 0 where
  pub forward : r.started_at < r.excused_until
  pub short : r.excused_until ≤ r.started_at + max_excuse_s
  pub over : not (r.closed_at == 0) ≡ true → r.excused_until ≤ r.closed_at

run_order-IsBrief :
    (now : ℕ) (order : ExcuseOrder) (s : ExcuseStore)
    → AllValues IsBrief s.records
    → AllValues IsBrief (run_order now order s).records
unfolding record_force_majeure close_force_majeure
run_order-IsBrief now (record_order c id kind started until reason residual) s h =
    elim (Bool-cases (ltb started until && leb (until - started) max_excuse_s)) [
      | inl good ↦
          let r = new_record c id kind started until reason residual in
          let brief : IsBrief r = record {
            forward = ground arith;
            short = ground arith;
            over = λ e. ground arith;
          } in
          ground (arith, h, AllValues-insert IsBrief id r s.records brief h)
      | inr bad ↦ ground (arith, h)
    ]
run_order-IsBrief now (close_order c id at) s h = elim (Option-cases (lookup id s.records)) [
  | inl e ↦ ground (arith, h)
  | inr (r, e) ↦
      let b = AllValues-lookup IsBrief id r s.records h e in
      elim (Bool-cases (ltb at r.excused_until)) [
        | inl early ↦ ground (arith, h)
        | inr late ↦
            let brief : IsBrief (record r { closed_at = at }) = record {
              forward = b.forward;
              short = b.short;
              over = λ x. ground arith;
            } in
            ground (
              arith,
              h,
              AllValues-insert IsBrief id (record r { closed_at = at }) s.records brief h,
            )
      ]
]

-- In every run from a storage without records, an outage is excused for at most a day, whatever
-- the time that is asked for.
excused_seconds-le_day :
    (start : ExcuseStore) {t : ExcuseStore} (id : Symbol) (at : ℕ)
    → start.records ≡ []
    → Reach run_order start t
    → excused_seconds id at t ≤ max_excuse_s
unfolding excused_seconds
excused_seconds-le_day start {t} id at none_yet r =
    let h =
      Reach-keeps run_order (λ s. AllValues IsBrief s.records) run_order-IsBrief r
        (rw none_yet tt) in
    elim (Option-cases (lookup id t.records)) [
      | inl e ↦ ground arith
      | inr (entry, e) ↦
          let b = AllValues-lookup IsBrief id entry t.records h e in
          ground (arith, b.short, b.forward)
    ]
