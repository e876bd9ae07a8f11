-- ===== src/Claims/Tests.antt =====
-- A window that is opened, extended and claimed (sla_calculator/src/claim_deadline.rs), and the
-- theorems at these inputs.
use noc_iq_contracts.Base.{◌≡◌, refl, some, [], ◌∷◌, arith}
use noc_iq_contracts.Base.Int.{pos}
use noc_iq_contracts.Types.{lookup, insert}
use noc_iq_contracts.Effect.{err}
use noc_iq_contracts.Effect.Reach.{here, next}
use noc_iq_contracts.Claims.{
  ClaimStore, ClaimWindow, open_order, extend_order, run_order, opened, claimed, already_claimed,
  already_expired, claim_window, claim, open_claim_window, extend_claim_deadline,
}
use noc_iq_contracts.Claims.Once.{claim_once}

abbrev no_windows : ClaimStore
no_windows = record { windows = []; events = [] }

-- The window "c1", opened at 100 for 1000 seconds with half of the amount, extended once by 500.
abbrev extended_window : ClaimWindow
extended_window = record {
  claim_id = "c1";
  opened_at = 100;
  deadline = 1600;
  max_claim_bps = 5000;
  state = opened;
  extensions = 1;
}

abbrev extended_store : ClaimStore
extended_store =
    run_order 900 (extend_order "c1" 500) (run_order 100 (open_order "c1" 100 1000 5000) no_windows)

extended_store-window : claim_window "c1" extended_store ≡ some extended_window
unfolding claim_window open_claim_window extend_claim_deadline insert lookup
extended_store-window = refl

claim_too_late : (claim "c1" (pos 9) 1601 1601 extended_store).0 ≡ err already_expired
unfolding claim_window open_claim_window extend_claim_deadline insert lookup claim
claim_too_late = refl

abbrev claimed_window : ClaimWindow
claimed_window = record extended_window { state = claimed }

abbrev claimed_store : ClaimStore
claimed_store = record { windows = ("c1", claimed_window) ∷ []; events = [] }

claimed_store-window : claim_window "c1" claimed_store ≡ some claimed_window
unfolding claim_window lookup
claimed_store-window = refl

abbrev reopened_store : ClaimStore
reopened_store = run_order 2000 (open_order "c1" 2000 1000 5000) claimed_store

claim_once_example :
    (claim_window "c1" reopened_store ≡ some claimed_window)
    × (claim "c1" (pos 9) 2100 2100 reopened_store ≡ (err already_claimed, reopened_store))
claim_once_example =
    claim_once "c1" claimed_window claimed_store 9 2100 claimed_store-window refl
      (next 2000 (open_order "c1" 2000 1000 5000) here) (omega arith)
