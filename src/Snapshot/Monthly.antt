-- ===== src/Snapshot/Monthly.antt =====
-- The monthly records, which are written once (sla_calculator/src/history_snapshot.rs).
use noc_iq_contracts.Base.{
  ℕ, ◌+◌, ◌%◌, ◌==◌, ◌≡◌, Bool, false, Option, some, List, [], ◌∷◌, ◌++◌, length, any, is_some,
  str_eq, unwrap_or, arith,
}
use noc_iq_contracts.Types.{Symbol, SlaResult, u32_mod}
use noc_iq_contracts.AddressMap.{get, set, get-set}
use noc_iq_contracts.Effect.{
  Effect, ok, err, ◌>>=◌, ◌>>◌, return_ok, clock, reads, writes, found_or, refuse_if, kept,
}
use noc_iq_contracts.Effect.Reach.{Reach, Reach-keeps}

pub data SnapshotError : Type 0 where
  already_finalized invalid_month_index snapshot_not_found : SnapshotError

pub record NormalizedSnapshot : Type 0 where
  pub count : ℕ
  pub has_violations : Bool
  pub has_rewards : Bool

pub record MonthlySlaSnapshot : Type 0 where
  pub month_index : ℕ
  pub total_downtime_minutes : ℕ
  pub mttr_minutes : ℕ
  pub final_compliance_status : Symbol
  pub recorded_at : ℕ

pub data MonthlyEvent : Type 0 where
  m_snap : ℕ → Symbol → MonthlyEvent

-- The persistent entries, by month, and their count.
pub record MonthlyStore : Type 0 where
  pub snapshots : List (ℕ × MonthlySlaSnapshot)
  pub snapshot_count : Option ℕ
  pub events : List MonthlyEvent

abbrev pub MonthlyCall : Type 0 → Type 0
MonthlyCall A = Effect MonthlyStore SnapshotError A

-- Both flags of the loop: whether some entry has the status and whether some has the payment type.
unfoldable pub normalize_history : List SlaResult → NormalizedSnapshot
normalize_history history = record {
  count = length history;
  has_violations = any (λ (e : SlaResult). str_eq e.status "viol") history;
  has_rewards = any (λ (e : SlaResult). str_eq e.payment_type "rew") history;
}

unfoldable pub snapshot_monthly_sla : ℕ → ℕ → ℕ → Symbol → MonthlyCall MonthlySlaSnapshot
snapshot_monthly_sla month_index downtime mttr status = do
  refuse_if (month_index == 0) invalid_month_index
  stored ← reads (λ s. get month_index s.snapshots)
  refuse_if (is_some stored) already_finalized
  now ← clock
  let snapshot : MonthlySlaSnapshot = record {
    month_index = month_index;
    total_downtime_minutes = downtime;
    mttr_minutes = mttr;
    final_compliance_status = status;
    recorded_at = now;
  }
  writes (λ s. record s { snapshots = set month_index snapshot s.snapshots })
  writes (λ s. record s { snapshot_count = some ((unwrap_or s.snapshot_count 0 + 1) % u32_mod) })
  writes (λ s. record s { events = s.events ++ (m_snap month_index status ∷ []) })
  return_ok snapshot

abbrev pub snapshot_count : MonthlyStore → ℕ
snapshot_count s = unwrap_or s.snapshot_count 0

unfoldable pub get_monthly_sla_snapshot : ℕ → MonthlyCall MonthlySlaSnapshot
get_monthly_sla_snapshot month_index = do
  stored ← reads (λ s. get month_index s.snapshots)
  found_or stored snapshot_not_found

abbrev pub has_monthly_sla_snapshot : ℕ → MonthlyStore → Bool
has_monthly_sla_snapshot month_index s = is_some (get month_index s.snapshots)

-- The call that changes the storage, with its arguments.
pub record MonthlyOrder : Type 0 where
  pub month_index : ℕ
  pub downtime : ℕ
  pub mttr : ℕ
  pub status : Symbol

abbrev pub run_order : ℕ → MonthlyOrder → MonthlyStore → MonthlyStore
run_order now o s = kept s (snapshot_monthly_sla o.month_index o.downtime o.mttr o.status now s)

abbrev Stores : ℕ → MonthlySlaSnapshot → MonthlyStore → Type 0
Stores month snapshot s = get month s.snapshots ≡ some snapshot

run_order-Stores :
    (month : ℕ) (snapshot : MonthlySlaSnapshot) (now : ℕ) (o : MonthlyOrder) (s : MonthlyStore)
    → Stores month snapshot s
    → Stores month snapshot (run_order now o s)
unfolding snapshot_monthly_sla
run_order-Stores month snapshot now o s h =
    let new : MonthlySlaSnapshot = record {
      month_index = o.month_index;
      total_downtime_minutes = o.downtime;
      mttr_minutes = o.mttr;
      final_compliance_status = o.status;
      recorded_at = now;
    } in
    ground (arith, get-set o.month_index month new s.snapshots)

-- After a month was recorded with success, whatever months are recorded later, the query returns the
-- record that the call returned, and every further record of this month is refused as finalised,
-- with the storage as it was.
pub snapshot_monthly_sla-final :
    (month downtime mttr at now : ℕ) (status : Symbol) (s : MonthlyStore) {t : MonthlyStore}
    (snapshot : MonthlySlaSnapshot) (other : MonthlyOrder)
    → (snapshot_monthly_sla month downtime mttr status at s).0 ≡ ok snapshot
    → Reach run_order (snapshot_monthly_sla month downtime mttr status at s).1 t
    → (get_monthly_sla_snapshot month now t ≡ (ok snapshot, t))
      × (snapshot_monthly_sla month other.downtime other.mttr other.status now t
          ≡ (err already_finalized, t))
unfolding snapshot_monthly_sla get_monthly_sla_snapshot
snapshot_monthly_sla-final month downtime mttr at now status s {t} snapshot other done path =
    let start : Stores month snapshot (snapshot_monthly_sla month downtime mttr status at s).1 =
      ground (arith, get-set month month snapshot s.snapshots) in
    let h =
      Reach-keeps run_order (Stores month snapshot) (run_order-Stores month snapshot) path start in
    let valid : (month == 0) ≡ false = ground arith in (ground arith, ground arith)
