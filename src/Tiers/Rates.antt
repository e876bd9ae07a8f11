-- ===== src/Tiers/Rates.antt =====
-- Where a lower availability never has a lower penalty (sla_calculator/src/threshold_config.rs).
use noc_iq_contracts.Base.{
  ℕ, ◌≤◌, ◌≡◌, ◌⊎◌, inl, inr, true, some, List, [], ◌∷◌, arith, Option-cases, Bool-cases, any, ◌==◌,
}
use noc_iq_contracts.Tiers.{
  TierBracket, TierTable, TierStore, covers, first_rate, max_rate, rate_of, lookup_penalty_rate_bps,
}

-- Every bracket of the list has the property.
abbrev pub AllBrackets : (TierBracket → Type 0) → List TierBracket → Type 0
AllBrackets P [] = Unit
AllBrackets P (b ∷ rest) = P b × AllBrackets P rest

-- The first bracket starts where the second one ends or above, or has no lower rate.
abbrev pub IsAboveInRate : TierBracket → TierBracket → Type 0
IsAboveInRate a b =
    (b.max_availability_bps ≤ a.min_availability_bps) ⊎ (b.penalty_rate_bps ≤ a.penalty_rate_bps)

-- Of two brackets with different rates, the one with the lower rate lies above the other one; they
-- may share an endpoint.
abbrev pub IsGraded : List TierBracket → Type 0
IsGraded brackets = AllBrackets (λ a. AllBrackets (IsAboveInRate a) brackets) brackets

max_rate-ge : (largest : ℕ) (brackets : List TierBracket) → largest ≤ max_rate largest brackets
unfolding max_rate
max_rate-ge largest [] = omega arith
max_rate-ge largest (b ∷ rest) =
    ground (arith, max_rate-ge largest rest, max_rate-ge b.penalty_rate_bps rest)

-- The bracket that the first loop stops at.
first_rate-some :
    (P : TierBracket → Type 0) (availability rate : ℕ) (brackets : List TierBracket)
    → AllBrackets P brackets
    → first_rate availability brackets ≡ some rate
    → (b : TierBracket) × P b × (covers availability b ≡ true) × (b.penalty_rate_bps ≡ rate)
unfolding first_rate
first_rate-some P availability rate [] h e = absurd (ground (arith, e))
first_rate-some P availability rate (b ∷ rest) h e = elim (Bool-cases (covers availability b)) [
  | inl here ↦ (b, h.0, here, ground arith)
  | inr there ↦ first_rate-some P availability rate rest h.1 (rw there at e)
]

-- A rate that the first loop finds is at most the one of the second loop.
first_rate-le-max_rate :
    (availability rate largest : ℕ) (brackets : List TierBracket)
    → first_rate availability brackets ≡ some rate
    → rate ≤ max_rate largest brackets
unfolding first_rate max_rate
first_rate-le-max_rate availability rate largest [] e = absurd (ground (arith, e))
first_rate-le-max_rate availability rate largest (b ∷ rest) e = ground (
  arith,
  max_rate-ge b.penalty_rate_bps rest,
  max_rate-ge largest rest,
  first_rate-le-max_rate availability rate largest rest,
  first_rate-le-max_rate availability rate b.penalty_rate_bps rest,
)

any-first_rate :
    (availability : ℕ) (brackets : List TierBracket)
    → any (covers availability) brackets ≡ true
    → (rate : ℕ) × (first_rate availability brackets ≡ some rate)
unfolding first_rate
any-first_rate availability [] h = absurd (ground (arith, h))
any-first_rate availability (b ∷ rest) h = elim (Bool-cases (covers availability b)) [
  | inl here ↦ (b.penalty_rate_bps, rw here)
  | inr there ↦ rw there (any-first_rate availability rest (rw there at h))
]

-- In a stored table where, of two brackets with different rates, the one with the lower rate starts
-- where the other one ends or above, listed in any order: of two availabilities the lower one has at
-- least the penalty rate of the higher one, where the higher one reaches the target or lies in a
-- bracket; the lower one may lie anywhere.
pub lookup_penalty_rate_bps-antitone :
    (s : TierStore) (table : TierTable) (low high : ℕ)
    → s.table ≡ some table
    → IsGraded table.brackets
    → low ≤ high
    → (table.target_sla_threshold_bps ≤ high) ⊎ (any (covers high) table.brackets ≡ true)
    → lookup_penalty_rate_bps high s ≤ lookup_penalty_rate_bps low s
unfolding lookup_penalty_rate_bps rate_of
lookup_penalty_rate_bps-antitone s table low high stored graded le (inl met) = ground arith
lookup_penalty_rate_bps-antitone s table low high stored graded le (inr covered) =
    let (rate, found) = any-first_rate high table.brackets covered in
    elim (Option-cases (first_rate low table.brackets)) [
      | inl below ↦ ground (arith, first_rate-le-max_rate high rate 0 table.brackets)
      | inr (rate', found') ↦
          let (a, above, in_a, rate_a) =
            first_rate-some (λ a. AllBrackets (IsAboveInRate a) table.brackets) low rate'
              table.brackets graded found' in
          let (b, below, in_b, rate_b) =
            first_rate-some (IsAboveInRate a) high rate table.brackets above found in
          elim (Bool-cases (low == high)) [
            | inl same ↦ ground (arith, same)
            | inr other ↦ ground (arith, other, below)
          ]
    ]
