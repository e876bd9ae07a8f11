-- ===== src/Tiers.antt =====
-- The table of penalty rates by availability, and the thresholds of a severity
-- (sla_calculator/src/threshold_config.rs).
pub mod Rates
pub mod Updates
pub mod Tests
use noc_iq_contracts.Base.{
  ℕ, ◌+◌, ◌==◌, ◌&&◌, not, Bool, true, false, Option, none, some, List, [], ◌∷◌, ◌++◌, leb, ltb,
  if◌then◌else◌, unwrap_or,
}
use noc_iq_contracts.Base.Int.{ℤ}
use noc_iq_contracts.Types.{
  Address, Symbol, SlaConfig, SlaError, not_initialized, unauthorized, no_pending_transfer,
  config_not_found, lookup, saturating_u64,
}
use noc_iq_contracts.Effect.{
  Effect, ◌>>=◌, ◌>>◌, return_ok, clock, reads, writes, found_or, refuse_if, kept,
}

pub record TierBracket : Type 0 where
  pub min_availability_bps : ℕ
  pub max_availability_bps : ℕ
  pub penalty_rate_bps : ℕ

pub record TierTable : Type 0 where
  pub target_sla_threshold_bps : ℕ
  pub brackets : List TierBracket

pub record TierTableProposal : Type 0 where
  pub proposal_id : ℕ
  pub proposer : Address
  pub new_table : TierTable
  pub proposed_at : ℕ

pub data TierEvent : Type 0 where
  tier_set : Address → ℕ → TierEvent
  tier_prop tier_exec : Address → ℕ → ℕ → TierEvent

-- The storage keys; `last_id` is absent until the first proposal.
pub record TierStore : Type 0 where
  pub admin : Option Address
  pub table : Option TierTable
  pub pending : Option TierTableProposal
  pub last_id : Option ℕ
  pub configs : Option (List (Symbol × SlaConfig))
  pub events : List TierEvent

abbrev pub TierCall : Type 0 → Type 0
TierCall A = Effect TierStore SlaError A

abbrev pub announce : TierEvent → TierCall (Unit {0})
announce ev = writes (λ s. record s { events = s.events ++ (ev ∷ []) })

unfoldable pub require_admin : Address → TierCall (Unit {0})
require_admin caller = do
  admin ← found_or (← reads (λ s. s.admin)) not_initialized
  refuse_if (not (caller == admin)) unauthorized

unfoldable pub set_tier_table : Address → TierTable → TierCall (Unit {0})
unfolding require_admin
set_tier_table caller table = do
  require_admin caller
  writes (λ s. record s { table = some table })
  announce (tier_set caller table.target_sla_threshold_bps)

abbrev pub get_tier_table : TierStore → Option TierTable
get_tier_table s = s.table

unfoldable pub propose_tier_table : Address → TierTable → TierCall ℕ
unfolding require_admin
propose_tier_table caller new_table = do
  require_admin caller
  current_id ← reads (λ s. unwrap_or s.last_id 0)
  let next_id = saturating_u64 (current_id + 1)
  writes (λ s. record s { last_id = some next_id })
  now ← clock
  writes (λ s. record s {
    pending = some (record {
      proposal_id = next_id;
      proposer = caller;
      new_table = new_table;
      proposed_at = now;
    });
  })
  announce (tier_prop caller next_id new_table.target_sla_threshold_bps)
  return_ok next_id

unfoldable pub execute_tier_table_proposal : Address → ℕ → TierCall (Unit {0})
unfolding require_admin
execute_tier_table_proposal caller proposal_id = do
  require_admin caller
  proposal ← found_or (← reads (λ s. s.pending)) no_pending_transfer
  refuse_if (not (proposal.proposal_id == proposal_id)) no_pending_transfer
  writes (λ s. record s { table = some proposal.new_table; pending = none })
  announce (tier_exec caller proposal_id proposal.new_table.target_sla_threshold_bps)

abbrev pub get_pending_tier_proposal : TierStore → Option TierTableProposal
get_pending_tier_proposal s = s.pending

abbrev pub covers : ℕ → TierBracket → Bool
covers availability b =
    leb b.min_availability_bps availability && leb availability b.max_availability_bps

-- The first loop: the rate of the first bracket that covers the availability.
unfoldable pub first_rate : ℕ → List TierBracket → Option ℕ
first_rate availability [] = none
first_rate availability (b ∷ rest) =
    if covers availability b then some b.penalty_rate_bps else first_rate availability rest

-- The second loop, from the largest rate so far.
unfoldable pub max_rate : ℕ → List TierBracket → ℕ
max_rate largest [] = largest
max_rate largest (b ∷ rest) =
    max_rate (if ltb largest b.penalty_rate_bps then b.penalty_rate_bps else largest) rest

unfoldable pub rate_of : TierTable → ℕ → ℕ
rate_of table availability =
    if leb table.target_sla_threshold_bps availability
    then 0
    else unwrap_or (first_rate availability table.brackets) (max_rate 0 table.brackets)

abbrev pub rate_under : Option TierTable → ℕ → ℕ
rate_under none availability = 0
rate_under (some table) availability = rate_of table availability

unfoldable pub lookup_penalty_rate_bps : ℕ → TierStore → ℕ
lookup_penalty_rate_bps availability s = rate_under s.table availability

pub record SeverityThresholds : Type 0 where
  pub severity : Symbol
  pub threshold_minutes : ℕ
  pub penalty_per_minute : ℤ
  pub reward_base : ℤ
  pub top_tier_multiplier : ℕ
  pub excel_tier_multiplier : ℕ
  pub good_tier_multiplier : ℕ

unfoldable pub get_severity_thresholds : Symbol → TierCall SeverityThresholds
get_severity_thresholds severity = do
  configs ← found_or (← reads (λ s. s.configs)) not_initialized
  config ← found_or (lookup severity configs) config_not_found
  return_ok (record {
    severity = severity;
    threshold_minutes = config.threshold_minutes;
    penalty_per_minute = config.penalty_per_minute;
    reward_base = config.reward_base;
    top_tier_multiplier = config.top_tier_multiplier;
    excel_tier_multiplier = config.excel_tier_multiplier;
    good_tier_multiplier = config.good_tier_multiplier;
  })

-- The calls that change the storage.
pub data TierOrder : Type 0 where
  set_order propose_order : Address → TierTable → TierOrder
  execute_order : Address → ℕ → TierOrder

abbrev pub run_order : ℕ → TierOrder → TierStore → TierStore
run_order now (set_order caller table) s = kept s (set_tier_table caller table now s)
run_order now (propose_order caller table) s = kept s (propose_tier_table caller table now s)
run_order now (execute_order caller id) s = kept s (execute_tier_table_proposal caller id now s)
