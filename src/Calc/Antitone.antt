-- ===== src/Calc/Antitone.antt =====
-- `compute_result` (sla_calculator/src/lib.rs) for outages of different lengths.
use noc_iq_contracts.Base.{ℕ, suc, ◌-◌, ◌*◌, ◌/◌, ◌≤◌, ◌<◌, ◌≡◌, List, arith, sym, ◌∙◌}
use noc_iq_contracts.Base.Int.{pos, pos_part, neg_part, ◌≤ℤ◌, neg_ℤ}
use noc_iq_contracts.Types.{Symbol, SlaConfig, SlaResult, u32_mod}
use noc_iq_contracts.Storage.{ok}
use noc_iq_contracts.Calc.Outcome.{compute_result}
use noc_iq_contracts.Calc.Amounts.{IsBounded, tier_by_fraction}
use noc_iq_contracts.Calc.Correct.{exact_amount, exact_result, compute_result-exact}

-- The multipliers fall from the top tier down.
pub record IsGraded (cfg : SlaConfig) : Type 0 where
  pub top_excel : cfg.excel_tier_multiplier ≤ cfg.top_tier_multiplier
  pub excel_good : cfg.good_tier_multiplier ≤ cfg.excel_tier_multiplier

mul_mono : (a b c d : ℕ) → a ≤ b → c ≤ d → a * c ≤ b * d
mul_mono a b c d h k = grind arith

tier-antitone :
    (m n : ℕ) (cfg : SlaConfig)
    → IsGraded cfg
    → m ≤ n
    → (tier_by_fraction n cfg).0 ≤ (tier_by_fraction m cfg).0
unfolding tier_by_fraction
tier-antitone m n cfg g h = ground arith

div_100 : (a b : ℕ) → a ≤ b → a / 100 ≤ b / 100
div_100 a b h = omega arith

neg_ℤ-pos_parts : (n : ℕ) → (pos_part (neg_ℤ (pos n)) ≡ 0) × (neg_part (neg_ℤ (pos n)) ≡ n)
unfolding neg_ℤ
neg_ℤ-pos_parts n = ground arith

exact_amount-antitone :
    (m n : ℕ) (cfg : SlaConfig)
    → IsGraded cfg
    → m ≤ n
    → exact_amount (suc n) cfg ≤ℤ exact_amount (suc m) cfg
unfolding exact_amount
exact_amount-antitone m n cfg g h = ground (
  arith,
  neg_ℤ-pos_parts ((suc m - cfg.threshold_minutes) * pos_part cfg.penalty_per_minute),
  neg_ℤ-pos_parts ((suc n - cfg.threshold_minutes) * pos_part cfg.penalty_per_minute),
  mul_mono (suc m - cfg.threshold_minutes) (suc n - cfg.threshold_minutes)
      (pos_part cfg.penalty_per_minute) (pos_part cfg.penalty_per_minute),
  div_100 (pos_part cfg.reward_base * (tier_by_fraction (suc n) cfg).0)
      (pos_part cfg.reward_base * (tier_by_fraction (suc m) cfg).0),
  mul_mono (pos_part cfg.reward_base) (pos_part cfg.reward_base) (tier_by_fraction (suc n) cfg).0
      (tier_by_fraction (suc m) cfg).0,
  tier-antitone (suc m) (suc n) cfg g,
)

amount_of :
    (i : Symbol) (m : ℕ) (cfg : SlaConfig) (hash : List ℕ) (now : ℕ) {r : SlaResult}
    → ok (exact_result i m cfg hash now) ≡ ok r
    → exact_amount m cfg ≡ r.amount
unfolding exact_result
amount_of i m cfg hash now p = cc

-- Under one configuration within its bounds whose multipliers fall from the top tier down, of two
-- outages of at least a minute the longer is never paid more than the shorter.
pub compute_result-antitone :
    (i : Symbol) (cfg : SlaConfig) (hash : List ℕ) (now m n : ℕ) {r q : SlaResult}
    → IsBounded cfg
    → IsGraded cfg
    → m ≤ n
    → suc n < u32_mod
    → compute_result i (suc m) cfg hash now ≡ ok r
    → compute_result i (suc n) cfg hash now ≡ ok q
    → q.amount ≤ℤ r.amount
compute_result-antitone i cfg hash now m n {r} {q} b g h w er eq =
    let x = compute_result-exact i (suc m) cfg hash now b (omega arith) in
    let y = compute_result-exact i (suc n) cfg hash now b w in
    rw
      (
        ← amount_of i (suc m) cfg hash now (sym x ∙ er),
        ← amount_of i (suc n) cfg hash now (sym y ∙ eq),
      )
      (exact_amount-antitone m n cfg g h)
