-- ===== src/SubmissionRate/Tests.antt =====
-- Submissions under a limit of two in all (sla_calculator/src/submission_rate.rs), and the theorem
-- at this input.
use noc_iq_contracts.Base.{ℕ, ◌+◌, ◌≤◌, ◌≡◌, refl, true, none, some, List, [], ◌∷◌, arith}
use noc_iq_contracts.Types.{Address}
use noc_iq_contracts.AddressMap.{get, set}
use noc_iq_contracts.SubmissionRate.{
  SubmissionRateConfig, GlobalSubmissionTrack, RateStore, check_submission_rate, record_submission,
}
use noc_iq_contracts.SubmissionRate.Window.{
  submit, submit_all, count_from, AllBelow, window-bounded,
}

abbrev two_in_all : SubmissionRateConfig
two_in_all = record { max_per_operator = 2; max_total = 2; window_seconds = 100; enabled = true }

abbrev idle : RateStore
idle = record {
  admin = some 1;
  config = some two_in_all;
  operators = [];
  global = none;
  events = [];
}

-- The third submission comes too early, the fourth in a new window.
abbrev calls : List (ℕ × Address)
calls = (1000, 5) ∷ (1010, 6) ∷ (1050, 7) ∷ (1100, 5) ∷ []

abbrev last_window : GlobalSubmissionTrack
last_window = record { total_count = 1; window_start = 1100 }

let_through : (submit_all calls idle []).1 ≡ 1100 ∷ 1010 ∷ 1000 ∷ []
unfolding submit_all submit check_submission_rate record_submission get set
let_through = refl

stored_window : (submit_all calls idle []).0.global ≡ some last_window
unfolding submit_all submit check_submission_rate record_submission get set
stored_window = refl

window-bounded_example :
    let accepted = (submit_all calls idle []).1 in
    (count_from 1100 accepted ≡ 1) × (count_from 1100 accepted ≤ 2) × AllBelow (1100 + 100) accepted
window-bounded_example =
    window-bounded two_in_all refl (omega arith) (omega arith) calls idle last_window refl refl
      (omega arith) stored_window
