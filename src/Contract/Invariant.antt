-- ===== src/Contract/Invariant.antt =====
-- What holds of the storage between two transactions.
use noc_iq_contracts.Base.{◌≤◌, ◌<◌, ◌≡◌, true, false, length, arith, unwrap_or, is_some}
use noc_iq_contracts.Types.{SlaStats, u64_mod}
use noc_iq_contracts.Storage.{Storage, empty_storage}
use noc_iq_contracts.Lifecycle.{zero_stats}
use noc_iq_contracts.Calc.Submit.{retention, stored_history, max_duration}

abbrev pub stored_stats : Storage → SlaStats
stored_stats s = unwrap_or s.stats zero_stats

pub record Inv (s : Storage) : Type 0 where
  pub limit_low : 50 ≤ retention s
  pub limit_high : retention s ≤ 5000
  pub bounded : length (stored_history s) ≤ 5000
  pub counted : (stored_stats s).total_violations ≤ (stored_stats s).total_calculations
  pub matched : length (stored_history s) ≤ (stored_stats s).total_calculations
  pub countable : (stored_stats s).total_calculations < u64_mod
  pub explained : unwrap_or s.paused false ≡ true → is_some s.pause_info ≡ true
  pub capped : 0 < max_duration s

pub empty_storage-Inv : Inv empty_storage
unfolding max_duration
empty_storage-Inv = ground arith
