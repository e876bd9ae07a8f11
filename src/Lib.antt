-- ===== src/Lib.antt =====
-- Verification library of the SLA calculator contract, the Soroban contract in Rust under
-- sla_calculator/src. An operator submits outages; the contract computes a penalty or a reward from
-- the configuration of the outage's severity, keeps a bounded history with statistics, and
-- publishes events. An admin sets the configuration, the limits and the roles.
--
-- Parts and files. The source is sla_calculator/src/lib.rs unless another file is named; an entry
-- point has the name of the Rust function.
--   Base       numbers, lists, conditionals; Base.Int has i128 with its saturating operations
--   Types      the contract types, maps as association lists, and Env, what the host supplies
--   MapLaws    the law of insert and lookup
--   Storage    the storage record (a field for each key), the events, and Action, the shape of an
--              entry point: it reads Env and threads the storage; `?` is the bind, a panic is a
--              result of its own, and commit drops the effects of a call that does not return Ok.
--              Storage.Frame: actions that change nothing
--   Guards     check_version, require_admin, require_operator, require_not_paused
--   Config     severities, defaults, validate_config, set_config, import_config_map; Soundness says
--              what a sound map is; Accept, Transitions and Incomplete relate validation to it
--   Roles      admin and operator with their two-step handovers; Roles.Handover
--   Lifecycle  initialize, migrate, the emergency migration, pause; Lifecycle.Locks
--   Calc       compute_result (Outcome), calculate_sla (Submit), the views (View), and their
--              proofs: Amounts, Correct, Antitone, Access, Resubmit, Recorded, Succeeds
--   History    pruning, retention limits and queries; History.Newest, History.Queries
--   Batch      sla_calculator/src/batch.rs: the batch loop and the downtime by site
--   Helpers    isqrt, the discount for several sites, availability in milli-basis-points
--   Compliance calculate_monthly_sla_compliance with its calendar; Months, Rate
--   Contract   all calls that change the storage, transactions and what they reach; Invariant,
--              Preserve, Authority
--   Effect     the shape of the calls of the modules beside lib.rs, each with a storage and an error
--              type of its own; Effect.Reach: sequences of transactions; Effect.Keeps: rules for
--              what a call keeps
--   AddressMap maps from addresses; Flags counts the addresses that a map sets
--   Dispute    sla_calculator/src/dispute.rs: records (State), tally and settlement (Settle), entry
--              points (Entry), sequences of calls (Calls); Votes, Payout, Deadline, Calls.Pool and
--              Calls.Cap hold the proofs
--   Rotation   sla_calculator/src/upgrade_path.rs: the upgrade log and the rotation of the admin key;
--              Campaign says which calls are behind a proposal; Safety, Upgrade
--   Whitelist  sla_calculator/src/whitelist.rs: whitelist, roles and grace period; Spec is the set that
--              the whitelist implements; Count, Grace
--   Claims     sla_calculator/src/claim_deadline.rs; Windows, Once
--   Collateral sla_calculator/src/collateral_lock.rs; Conserve. Rescue is
--              sla_calculator/src/token_rescue.rs, where the token contracts are parameters; Rescue.Covered
--   SubmissionRate  sla_calculator/src/submission_rate.rs; Window
--   RewardCap  sla_calculator/src/reward_cap.rs; Budget
--   ForceMajeure  sla_calculator/src/force_majeure.rs; Excuse. The source's `record` is find_record
--   Trend      sla_calculator/src/trend.rs; Summary has the buckets; Period, Rolling and
--              Summary.Telescope hold the proofs
--   Breach     sla_calculator/src/breach_escalation.rs: the strikes of a provider; Strikes
--   Operators  sla_calculator/src/multi_operator.rs; Count. The order in which the host iterates over
--              a map is a parameter of list_operators
--   Dependency  sla_calculator/src/dependency_propagation.rs; Climb is the way up over the parents, with
--              Acyclic and Spread. The loop of ancestry_contains runs on fuel
--   Tiers      sla_calculator/src/threshold_config.rs; Rates, Updates
--   Negotiation  sla_calculator/src/version_negotiation.rs; Verdict
--   Resolution sla_calculator/src/resolution_delay.rs; Once
--   CallSafety sla_calculator/src/cross_contract_safety.rs; Registry, Workflow. The host's
--              try_invoke_contract is a parameter
--   Proposals  sla_calculator/src/proposal_execution_queue.rs; Order
--   Snapshot   sla_calculator/src/state_snapshot.rs over the storage of lib.rs, with Export; Monthly is
--              sla_calculator/src/history_snapshot.rs
--   Integrity  sla_calculator/src/state_integrity.rs over the storage of lib.rs; Orphans
--   Tuning     sla_calculator/src/adaptive_tuning.rs; Advice
--   Payload    sla_calculator/src/event_payload_guard.rs; Limits
--   Compaction sla_calculator/src/event_log_compaction.rs; Evict
--   Amounts    sla_calculator/src/zero_downtime_bonus.rs, with Bonus; Penalty, Threshold and Rating are
--              penalty_bounds.rs, threshold_bounds.rs and rating.rs beside it
--   Fixtures   concrete values for the Tests module of each part
--
-- Numbers. Thresholds, durations and counters are natural numbers; where Rust's type is reached by
-- arithmetic the wrap (2^32, 2^64) or the saturation is written out, as for a build without overflow
-- checks. Amounts are integers with the saturating operations of i128; div_euclid by a positive
-- divisor rounds down. Loops over vectors are recursion on lists, so they need no fuel.
-- isqrt runs on fuel: 128 rounds, enough for u128 since each round halves the range.
-- ancestry_contains runs on fuel: two rounds more than there are entries for parents, enough where no
-- site stands above itself.
--
-- Parameters. The timestamp, the SHA-256 digest of the configuration map (a function of what the
-- map holds) and the payload of a symbol come from Env; nothing is assumed of them. Addresses and
-- symbols are only compared. An entry point takes its caller as an argument, as in the source, which
-- does not ask the host to authenticate it.
--
-- The modules beside lib.rs do not call one another: each has a record for the keys that it uses. A
-- caller that the source authenticates by require_auth is one that the host let through. A call that
-- returns an error or panics leaves the storage as it was; the source's functions that return no
-- Result are effects that always succeed. lib.rs declares no module for dispute.rs, upgrade_path.rs
-- and multi_operator.rs: they are modelled as they stand in the repository.
--
-- Not modelled: the polynomial hashes, checked_div_sla, the constant schemas and the metadata of
-- lib.rs; the queries whose result has the order of the host's map (list_disputes,
-- get_disputes_by_status, list_whitelisted, locked_amounts_by_site); and the modules of
-- sla_calculator/src that the list above does not name (appeals, unbonding, rate limits by sliding
-- window, pausing, configuration bundles, event filters and others).
-- The TypeScript code is out of scope.
pub mod Base
pub mod Types
pub mod MapLaws
pub mod Storage
pub mod Guards
pub mod Config
pub mod Roles
pub mod Integrity
pub mod Lifecycle
pub mod Calc
pub mod History
pub mod Batch
pub mod Contract
pub mod Helpers
pub mod Compliance
pub mod Effect
pub mod Dispute
pub mod Rotation
pub mod Whitelist
pub mod Claims
pub mod Collateral
pub mod SubmissionRate
pub mod RewardCap
pub mod Trend
pub mod ForceMajeure
pub mod Breach
pub mod Dependency
pub mod Tiers
pub mod Negotiation
pub mod CallSafety
pub mod Resolution
pub mod Proposals
pub mod Snapshot
pub mod Tuning
pub mod Payload
pub mod Compaction
pub mod Amounts
pub mod Operators
pub mod AddressMap
pub mod Fixtures
