-- ===== src/Contract/Preserve/History.antt =====
-- The invariant under pruning and the limits (sla_calculator/src/lib.rs).
use noc_iq_contracts.Base.{ℕ, ◌-◌, ◌≤◌, length, length-select-le, arith}
use noc_iq_contracts.Types.{Address, Env}
use noc_iq_contracts.Storage.{Storage, commit}
use noc_iq_contracts.Calc.Submit.{max_duration, retention, stored_history}
use noc_iq_contracts.History.{
  length-slice-le, slice, is_recent, prune_history, prune_history_by_age, prune_history_queue,
  set_retention_limit, set_max_outage_duration,
}
use noc_iq_contracts.Contract.Invariant.{Inv}

module _ (e : Env) (s : Storage) (v : Inv s) where
  shorter :
      (n : ℕ) → let h = stored_history s in length (slice (length h - n) (length h) h) ≤ length h
  shorter n = length-slice-le _ _ (stored_history s)

  pub prune_history-Inv : (c : Address) (n : ℕ) → Inv (commit s (prune_history c n e s))
  unfolding prune_history max_duration
  prune_history-Inv c n = ground (arith, v, shorter n)

  pub prune_history_queue-Inv : (c : Address) → Inv (commit s (prune_history_queue c e s))
  unfolding prune_history_queue max_duration
  prune_history_queue-Inv c = ground (arith, v, shorter (retention s))

  pub prune_history_by_age-Inv :
      (c : Address) (n : ℕ) → Inv (commit s (prune_history_by_age c n e s))
  unfolding prune_history_by_age max_duration
  prune_history_by_age-Inv c n =
      ground (arith, v, length-select-le (is_recent (e.timestamp - n)) (stored_history s))

  pub set_retention_limit-Inv : (c : Address) (n : ℕ) → Inv (commit s (set_retention_limit c n e s))
  unfolding set_retention_limit max_duration
  set_retention_limit-Inv c n = ground (arith, v)

  pub set_max_outage_duration-Inv :
      (c : Address) (n : ℕ) → Inv (commit s (set_max_outage_duration c n e s))
  unfolding set_max_outage_duration max_duration
  set_max_outage_duration-Inv c n = ground (arith, v)
