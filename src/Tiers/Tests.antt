-- ===== src/Tiers/Tests.antt =====
-- A table of two brackets with a gap between them (sla_calculator/src/threshold_config.rs), and the
-- theorems at these inputs.
use noc_iq_contracts.Base.{◌≡◌, ◌≤◌, refl, some, none, [], ◌∷◌, inr, arith}
use noc_iq_contracts.Effect.{ok, err}
use noc_iq_contracts.Effect.Reach.{here, next}
use noc_iq_contracts.Types.{no_pending_transfer}
use noc_iq_contracts.Tiers.{
  TierTable, TierStore, set_order, run_order, propose_tier_table, execute_tier_table_proposal,
  lookup_penalty_rate_bps, rate_of, first_rate, max_rate, set_tier_table,
}
use noc_iq_contracts.Tiers.Rates.{lookup_penalty_rate_bps-antitone}
use noc_iq_contracts.Tiers.Updates.{executed-eq-proposed}

abbrev two_brackets : TierTable
two_brackets = record {
  target_sla_threshold_bps = 9990;
  brackets =
      record { min_availability_bps = 9500; max_availability_bps = 9899; penalty_rate_bps = 300 }
      ∷ record { min_availability_bps = 9000; max_availability_bps = 9499; penalty_rate_bps = 800 }
      ∷ [];
}

abbrev tiered : TierStore
tiered = record {
  admin = some 1;
  table = some two_brackets;
  pending = none;
  last_id = none;
  configs = none;
  events = [];
}

-- Between the upper bracket and the target the highest rate applies.
gap_costs_most :
    (lookup_penalty_rate_bps 9950 tiered ≡ 800)
    × (lookup_penalty_rate_bps 9600 tiered ≡ 300)
    × (lookup_penalty_rate_bps 9990 tiered ≡ 0)
unfolding lookup_penalty_rate_bps rate_of first_rate max_rate
gap_costs_most = (refl, refl, refl)

-- Three brackets that share their endpoints: the table of the source's own test.
abbrev three_brackets : TierTable
three_brackets = record {
  target_sla_threshold_bps = 9990;
  brackets =
      record { min_availability_bps = 9900; max_availability_bps = 9990; penalty_rate_bps = 500 }
      ∷ record { min_availability_bps = 9500; max_availability_bps = 9900; penalty_rate_bps = 1500 }
      ∷ record { min_availability_bps = 0; max_availability_bps = 9500; penalty_rate_bps = 3000 }
      ∷ [];
}

abbrev tiered_thrice : TierStore
tiered_thrice = record tiered { table = some three_brackets }

lookup_penalty_rate_bps-antitone_example :
    lookup_penalty_rate_bps 9900 tiered_thrice ≤ lookup_penalty_rate_bps 9500 tiered_thrice
lookup_penalty_rate_bps-antitone_example =
    lookup_penalty_rate_bps-antitone tiered_thrice three_brackets 9500 9900 refl (omega arith)
      (omega arith) (inr refl)

abbrev proposed : TierStore
proposed = (propose_tier_table 1 two_brackets 50 (record tiered { table = none })).1

-- Another table is set directly before the proposal is executed.
abbrev set_between : TierStore
set_between = run_order 60 (set_order 1 (record two_brackets { brackets = [] })) proposed

wrong_id : (execute_tier_table_proposal 1 2 70 set_between).0 ≡ err no_pending_transfer
unfolding propose_tier_table execute_tier_table_proposal set_tier_table
wrong_id = refl

accepted_as_first : (propose_tier_table 1 two_brackets 50 (record tiered { table = none })).0 ≡ ok 1
unfolding propose_tier_table
accepted_as_first = refl

executes : (execute_tier_table_proposal 1 1 70 set_between).0 ≡ ok tt
unfolding propose_tier_table execute_tier_table_proposal set_tier_table
executes = refl

executed-eq-proposed_example :
    (execute_tier_table_proposal 1 1 70 set_between).1.table ≡ some two_brackets
executed-eq-proposed_example =
    executed-eq-proposed 1 1 two_brackets 50 70 1 (record tiered { table = none }) accepted_as_first
      (omega arith) (next 60 (set_order 1 (record two_brackets { brackets = [] })) here) executes
