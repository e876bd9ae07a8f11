-- ===== src/Types.antt =====
-- The contract's data types (sla_calculator/src/lib.rs), and what the host supplies to a call.
use noc_iq_contracts.Base.{
  ℕ, ◌-◌, ◌%◌, ltb, ◌^◌, ◌&&◌, Bool, String, Option, none, some, List, [], ◌∷◌, str_eq, ◌==◌,
  if◌then◌else◌,
}
use noc_iq_contracts.Base.Int.{ℤ, pos, negsuc, eqb_ℤ}

-- Addresses and symbols are only compared, and written into events.
abbrev pub Address : Type 0
Address = ℕ

abbrev pub Symbol : Type 0
Symbol = String

-- Arithmetic on u32 and u64 in a release build wraps.
abbrev pub u32_mod : ℕ
u32_mod = 2 ^ 32

abbrev pub u64_mod : ℕ
u64_mod = 2 ^ 64

-- What is left of a sum where `saturating_add` stops at the largest value.
abbrev pub saturating_u32 : ℕ → ℕ
saturating_u32 n = if ltb n u32_mod then n else u32_mod - 1

abbrev pub saturating_u64 : ℕ → ℕ
saturating_u64 n = if ltb n u64_mod then n else u64_mod - 1

-- `as i32`
unfoldable pub cast_i32 : ℤ → ℤ
cast_i32 (pos n) =
    let word = n % u32_mod in if ltb word (2 ^ 31) then pos word else negsuc (u32_mod - 1 - word)
cast_i32 (negsuc n) =
    let word = n % u32_mod in if ltb word (2 ^ 31) then negsuc word else pos (u32_mod - 1 - word)

pub data SlaError : Type 0 where
  already_initialized not_initialized unauthorized config_not_found version_mismatch : SlaError
  contract_paused no_pending_transfer invalid_threshold invalid_penalty invalid_reward : SlaError
  invalid_severity retention_limit_out_of_range duplicate_outage_input : SlaError
  invalid_penalty_amount invalid_reward_amount invalid_outage_id malformed_symbol_input : SlaError
  invalid_mttr threshold_out_of_bounds penalty_out_of_bounds reward_out_of_bounds : SlaError
  invalid_month invalid_timestamp_sequence division_by_zero : SlaError

pub record SlaConfig : Type 0 where
  pub threshold_minutes : ℕ
  pub penalty_per_minute : ℤ
  pub reward_base : ℤ
  pub top_tier_multiplier : ℕ
  pub excel_tier_multiplier : ℕ
  pub good_tier_multiplier : ℕ

-- The derived `PartialEq`: field by field.
unfoldable pub eqb_config : SlaConfig → SlaConfig → Bool
eqb_config a b =
    (a.threshold_minutes == b.threshold_minutes)
    && eqb_ℤ a.penalty_per_minute b.penalty_per_minute
    && eqb_ℤ a.reward_base b.reward_base
    && (a.top_tier_multiplier == b.top_tier_multiplier)
    && (a.excel_tier_multiplier == b.excel_tier_multiplier)
    && (a.good_tier_multiplier == b.good_tier_multiplier)

pub record OutageInput : Type 0 where
  pub outage_id : Symbol
  pub severity : Symbol
  pub mttr_minutes : ℕ

pub record SlaSimulationResult : Type 0 where
  pub is_breach : Bool
  pub penalty_amount : ℤ
  pub uptime_bps : ℕ
  pub applied_tier : Option Symbol

pub record SlaResult : Type 0 where
  pub outage_id : Symbol
  pub status : Symbol
  pub mttr_minutes : ℕ
  pub threshold_minutes : ℕ
  pub amount : ℤ
  pub payment_type : Symbol
  pub rating : Symbol
  pub config_version_hash : List ℕ
  pub recorded_at : ℕ

pub record SlaStats : Type 0 where
  pub total_calculations : ℕ
  pub total_violations : ℕ
  pub total_rewards : ℤ
  pub total_penalties : ℤ

pub record PauseInfo : Type 0 where
  pub reason : String
  pub paused_at : ℕ
  pub paused_by : Address

pub record PendingProposalInfo : Type 0 where
  pub target : Address
  pub proposed_at : ℕ

-- `Map<Symbol, V>` as an association list.
module _ {V : Type 0} where
  unfoldable pub lookup : Symbol → List (Symbol × V) → Option V
  lookup k [] = none
  lookup k ((j, v) ∷ m) = if str_eq j k then some v else lookup k m

  unfoldable pub insert : Symbol → V → List (Symbol × V) → List (Symbol × V)
  insert k v [] = (k, v) ∷ []
  insert k v ((j, w) ∷ m) = if str_eq j k then (k, v) ∷ m else (j, w) ∷ insert k v m

abbrev pub ConfigMap : Type 0
ConfigMap = List (Symbol × SlaConfig)

-- What a call takes from the host: the ledger's time, the SHA-256 of a map's XDR form, which is
-- a function of what the map holds, and the payload word of a symbol.
pub record Env : Type 0 where
  pub timestamp : ℕ
  pub config_digest : (Symbol → Option SlaConfig) → List ℕ
  pub symbol_payload : Symbol → ℕ
