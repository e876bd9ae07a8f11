-- ===== src/Dispute/Deadline.antt =====
-- The calls that replace or close one stored dispute (sla_calculator/src/dispute.rs).
use noc_iq_contracts.Base.{
  ℕ, ◌-◌, ◌*◌, ◌/◌, ◌≤◌, ◌<◌, ◌≡◌, ◌&&◌, not, ltb, true, some, String, length, if◌then◌else◌,
  str_eq, eq_refl, arith,
}
use noc_iq_contracts.Base.Int.{ℤ, pos, i128_max}
use noc_iq_contracts.Types.{Address, Symbol, lookup}
use noc_iq_contracts.MapLaws.{lookup-insert}
use noc_iq_contracts.Effect.{ok, err}
use noc_iq_contracts.Dispute.State.{
  Hash, DisputeRecord, SettlementPayout, dispute_not_active, arbitration_window_not_expired,
  resolved, dismissed, is_active, Court, max_active_disputes, count_active_disputes,
  require_dispute_admin,
}
use noc_iq_contracts.Dispute.Settle.{settle_dispute}
use noc_iq_contracts.Dispute.Payout.{settlement_amounts-upheld}
use noc_iq_contracts.Dispute.Entry.{
  new_dispute, open_dispute, auto_resolve_expired_dispute, dismiss_dispute, get_dispute,
  get_settlement_payout,
}

abbrev default_note : String
default_note = "Auto-resolved: arbitration window expired, defaulted in favor of filer"

-- A fee of 5 percent, split evenly, if anyone voted, and the rest of the bond for the customer.
abbrev pub upheld_payout : Symbol → ℕ → ℕ → SettlementPayout
upheld_payout id bond voters =
    let fee = if ltb 0 voters then bond * 500 / 10000 else 0 in
    record {
      dispute_id = id;
      upheld = true;
      customer_payout = pos (bond - fee);
      arbitrator_fee_total = pos fee;
      per_arbitrator_share = pos (if ltb 0 voters then fee / voters else 0);
    }

-- For a stored dispute with a bond of at least 0 whose product with 500 fits in 128 bits,
-- `auto_resolve_expired_dispute` refuses a dispute that is not active, then one whose deadline has
-- not passed, and else returns the payout of an upheld dispute: of the bond a fee of 5 percent,
-- rounded down, if anyone voted, in even shares rounded down, and the rest to the customer. Exactly
-- in this last case the payout is stored and the dispute closed in its filer's name, so that a
-- second call is refused; all other disputes and payouts, and the pool, are as before.
pub auto_resolve_expired_dispute-resolves :
    (id asked : Symbol) (d : DisputeRecord) (bond now later : ℕ) (s : Court)
    → lookup id s.disputes ≡ some d
    → d.bond_amount ≡ pos bond
    → bond * 500 ≤ i128_max
    → let payout = upheld_payout id bond (length d.arbitrator_votes) in
      let due = is_active d.status && ltb d.arbitration_window_deadline now in
      let (result, after) = auto_resolve_expired_dispute id now s in
      (result ≡ (
        if not (is_active d.status)
        then err dispute_not_active
        else if not (ltb d.arbitration_window_deadline now)
        then err arbitration_window_not_expired
        else ok payout))
      × (get_settlement_payout asked after
          ≡ (if due && str_eq id asked then some payout else get_settlement_payout asked s))
      × (get_dispute asked after ≡ (
          if due && str_eq id asked
          then some (record d {
            status = resolved;
            resolution = some default_note;
            resolved_by = some d.opened_by;
            resolved_at = some now;
          })
          else get_dispute asked s))
      × (after.arbitration_pool ≡ s.arbitration_pool)
      × (auto_resolve_expired_dispute id later after ≡ (
          if due then (err dispute_not_active, after) else auto_resolve_expired_dispute id later s))
unfolding auto_resolve_expired_dispute settle_dispute get_settlement_payout get_dispute
auto_resolve_expired_dispute-resolves id asked d bond now later s found paid fits =
    let closed = record d {
      status = resolved;
      resolution = some default_note;
      resolved_by = some d.opened_by;
      resolved_at = some now;
    } in
    let payout = upheld_payout id bond (length d.arbitrator_votes) in
    ground (
      arith,
      settlement_amounts-upheld bond (length d.arbitrator_votes) fits,
      eq_refl id,
      lookup-insert id asked closed s.disputes,
      lookup-insert id id closed s.disputes,
      lookup-insert id asked payout s.payouts,
    )

-- With fewer than 50 active disputes, `open_dispute` stores a fresh dispute under the id, with the
-- caller as its filer and no votes and no evidence, whatever the id held before and whoever opened
-- that; every other stored dispute is as before.
open_dispute-replaces :
    (caller : Address) (id outage asked : Symbol) (reason : String) (bond : ℤ) (evidence : Hash)
    (now : ℕ) (s : Court)
    → count_active_disputes s.disputes < max_active_disputes
    → get_dispute asked (open_dispute caller id outage reason bond evidence now s).1 ≡ (
        if str_eq id asked
        then some (new_dispute caller id outage reason bond now)
        else get_dispute asked s)
unfolding open_dispute get_dispute
open_dispute-replaces caller id outage asked reason bond evidence now s room =
    ground (arith, lookup-insert id asked (new_dispute caller id outage reason bond now) s.disputes)

-- The admin can dismiss any stored dispute, one that is settled included: its status becomes
-- dismissed, while its payout, the arbitrators' fees and the pool stay as they are.
pub dismiss_dispute-closed :
    (admin : Address) (id : Symbol) (d : DisputeRecord) (now : ℕ) (s : Court)
    → s.admin ≡ some admin
    → lookup id s.disputes ≡ some d
    → let after = (dismiss_dispute admin id now s).1 in
      (get_dispute id after
        ≡ some (record d { status = dismissed; resolved_by = some admin; resolved_at = some now }))
      × (after.payouts ≡ s.payouts)
      × (after.arbitrator_fees ≡ s.arbitrator_fees)
      × (after.arbitration_pool ≡ s.arbitration_pool)
unfolding dismiss_dispute require_dispute_admin get_dispute
dismiss_dispute-closed admin id d now s owner found = ground (
  arith,
  eq_refl id,
  lookup-insert id id
      (record d { status = dismissed; resolved_by = some admin; resolved_at = some now })
      s.disputes,
)
