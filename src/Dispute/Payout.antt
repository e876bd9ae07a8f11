-- ===== src/Dispute/Payout.antt =====
-- The amounts of a settlement (sla_calculator/src/dispute.rs).
use noc_iq_contracts.Base.{
  ℕ, ◌+◌, ◌-◌, ◌*◌, ◌/◌, ◌≤◌, ◌≡◌, refl, Bool, true, false, ltb, arith, ◌&&◌, if◌then◌else◌,
}
use noc_iq_contracts.Base.Int.{
  wrap_i128-sub, pos, pos-mul, i128_max, wrap_i128, wrap_i128-pos, ◌*ℤ◌, div_trunc,
}
use noc_iq_contracts.Dispute.Settle.{settlement_amounts}

-- The fee of an upheld bond, and each voter's part of it.
fee_of : ℕ → ℕ → Bool → ℕ
fee_of bond voters upheld = if upheld && ltb 0 voters then bond * 500 / 10000 else 0

share_of : ℕ → ℕ → ℕ
share_of fee voters = if ltb 0 voters then fee / voters else 0

fee_lem :
    (bond voters : ℕ) (upheld : Bool)
    → bond * 500 ≤ i128_max
    → (if upheld && ltb 0 voters then div_trunc (wrap_i128 (pos bond *ℤ pos 500)) 10000 else pos 0)
      ≡ pos (fee_of bond voters upheld)
unfolding fee_of div_trunc
fee_lem bond voters upheld h = rw (pos-mul bond 500, wrap_i128-pos (bond * 500) h) (ground arith)

share_lem :
    (fee voters : ℕ)
    → (if ltb 0 voters then div_trunc (pos fee) voters else pos 0) ≡ pos (share_of fee voters)
unfolding share_of div_trunc
share_lem fee voters = ground arith

fee_bound : (bond voters : ℕ) (upheld : Bool) → fee_of bond voters upheld * 20 ≤ bond
unfolding fee_of
fee_bound bond voters upheld = ground arith

share_bound : (fee voters : ℕ) → share_of fee voters * voters ≤ fee
unfolding share_of
share_bound fee voters = grind arith

-- For a bond of at least 0 whose product with 500 fits in 128 bits, the four amounts of a settlement
-- are at least 0; what the customer gets, the fee and what goes to the pool add up to the bond; the
-- equal shares of the voters do not exceed the fee, and the fee is at most a twentieth of the bond.
settlement_amounts-conserve :
    (bond voters : ℕ) (upheld slash : Bool)
    → bond * 500 ≤ i128_max
    → (paid : ℕ) × (fee : ℕ) × (share : ℕ) × (pool : ℕ) × (settlement_amounts
          (pos bond)
          voters
          upheld
          slash
        ≡ (pos paid, pos fee, pos share, pos pool))
      × (paid + fee + pool ≡ bond)
      × (share * voters ≤ fee)
      × (fee * 20 ≤ bond)
unfolding settlement_amounts
settlement_amounts-conserve bond voters upheld true h =
    (0, 0, 0, bond, ground arith, omega arith, omega arith, omega arith)
settlement_amounts-conserve bond voters upheld false h =
    let fee = fee_of bond voters upheld in
    let le = fee_bound bond voters upheld in
    (
      bond - fee,
      fee,
      share_of fee voters,
      0,
      rw (
        fee_lem bond voters upheld h,
        share_lem fee voters,
        wrap_i128-sub bond fee (omega arith) (omega arith),
      ),
      omega arith,
      share_bound fee voters,
      le,
    )

-- What an upheld settlement pays, in plain arithmetic.
pub settlement_amounts-upheld :
    (bond voters : ℕ)
    → bond * 500 ≤ i128_max
    → let fee = if ltb 0 voters then bond * 500 / 10000 else 0 in
      let share = if ltb 0 voters then fee / voters else 0 in
      settlement_amounts (pos bond) voters true false
      ≡ (pos (bond - fee), pos fee, pos share, pos 0)
unfolding settlement_amounts fee_of share_of
settlement_amounts-upheld bond voters h =
    let le = fee_bound bond voters true in
    rw
      (
        fee_lem bond voters true h,
        share_lem (fee_of bond voters true) voters,
        wrap_i128-sub bond (fee_of bond voters true) (omega (arith, h)) (omega (arith, le)),
      )
      refl
