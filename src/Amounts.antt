-- ===== src/Amounts.antt =====
-- The bonus for a window without downtime (sla_calculator/src/zero_downtime_bonus.rs).
pub mod Bonus
pub mod Penalty
pub mod Threshold
pub mod Rating
pub mod Tests
use noc_iq_contracts.Base.{ℕ, ◌==◌, ◌&&◌, ◌||◌, not, Bool, List, [], ◌∷◌, ◌++◌, ltb, if◌then◌else◌}
use noc_iq_contracts.Base.Int.{ℤ, pos, ltb_ℤ, leb_ℤ, saturating_mul, div_trunc}
use noc_iq_contracts.Types.{Address}
use noc_iq_contracts.Effect.{Effect, ◌>>=◌, ◌>>◌, return_ok, return_err, writes}

abbrev pub max_multiplier_bps : ℕ
max_multiplier_bps = 20000

abbrev pub bps_denominator : ℕ
bps_denominator = 10000

pub data BonusRejection : Type 0 where
  bonus_budget_depleted incomplete_window invalid_multiplier : BonusRejection

pub record BonusAward : Type 0 where
  pub operator : Address
  pub credit : ℤ
  pub multiplier_bps : ℕ
  pub window_seconds : ℕ

unfoldable pub is_payout : BonusAward → Bool
is_payout award = ltb_ℤ (pos 0) award.credit

abbrev pub is_eligible : ℕ → ℕ → Bool
is_eligible downtime_seconds window_seconds = (downtime_seconds == 0) && ltb 0 window_seconds

abbrev pub clamp_multiplier : ℕ → ℕ
clamp_multiplier multiplier_bps =
    if ltb max_multiplier_bps multiplier_bps then max_multiplier_bps else multiplier_bps

abbrev pub max_ℤ : ℤ → ℤ → ℤ
max_ℤ a b = if ltb_ℤ a b then b else a

abbrev pub min_ℤ : ℤ → ℤ → ℤ
min_ℤ a b = if ltb_ℤ b a then b else a

-- The divisor is never 0, so `checked_div` succeeds.
unfoldable pub scaled_credit : ℤ → ℕ → ℤ
scaled_credit base_credit multiplier_bps =
    max_ℤ
      (div_trunc (saturating_mul base_credit (pos (clamp_multiplier multiplier_bps)))
        bps_denominator)
      (pos 0)

unfoldable pub cap_to_budget : ℤ → ℤ → ℤ
cap_to_budget credit budget_remaining = max_ℤ (min_ℤ credit budget_remaining) (pos 0)

pub data BonusEvent : Type 0 where
  bonus : Address → ℤ → BonusEvent
  denied_multiplier denied_downtime : Address → ℕ → BonusEvent
  denied_budget : Address → ℤ → BonusEvent

-- The state is what has been published.
abbrev pub BonusCall : Type 0 → Type 0
BonusCall A = Effect (List BonusEvent) BonusRejection A

abbrev pub publish : BonusEvent → BonusCall (Unit {0})
publish ev = writes (λ events. events ++ (ev ∷ []))

abbrev pub deny_if : Bool → BonusEvent → BonusRejection → BonusCall (Unit {0})
deny_if b ev rejection = if b then (publish ev >> return_err rejection) else return_ok tt

unfoldable pub evaluate_bonus : Address → ℕ → ℕ → ℤ → ℤ → ℕ → BonusCall BonusAward
evaluate_bonus operator downtime window base_credit budget multiplier = do
  deny_if (multiplier == 0 || ltb max_multiplier_bps multiplier)
      (denied_multiplier operator multiplier) invalid_multiplier
  deny_if (leb_ℤ budget (pos 0)) (denied_budget operator budget) bonus_budget_depleted
  deny_if (not (is_eligible downtime window)) (denied_downtime operator downtime) incomplete_window
  let award : BonusAward = record {
    operator = operator;
    credit = cap_to_budget (scaled_credit base_credit multiplier) budget;
    multiplier_bps = clamp_multiplier multiplier;
    window_seconds = window;
  }
  publish (bonus operator award.credit)
  return_ok award
