-- ===== src/Claims.antt =====
-- The window in which a claim can be made (sla_calculator/src/claim_deadline.rs). The time is an
-- argument of the source's functions.
pub mod Windows
pub mod Once
pub mod Tests
use noc_iq_contracts.Base.{
  ℕ, ◌+◌, ◌-◌, ◌^◌, ◌%◌, ◌||◌, ◌==◌, not, Bool, true, false, Option, none, some, List, [], ◌∷◌,
  ◌++◌, leb, ltb, if◌then◌else◌,
}
use noc_iq_contracts.Base.Int.{ℤ, pos, ◌*ℤ◌, ltb_ℤ, eqb_ℤ, wrap_i128, div_trunc}
use noc_iq_contracts.Types.{
  Symbol, lookup, insert, u32_mod, u64_mod, saturating_u32, saturating_u64,
}
use noc_iq_contracts.Effect.{
  Effect, ◌>>=◌, ◌>>◌, return_ok, return_err, reads, writes, found_or, refuse_if, kept,
}

pub data ClaimState : Type 0 where
  absent opened claimed expired : ClaimState

pub record ClaimWindow : Type 0 where
  pub claim_id : Symbol
  pub opened_at : ℕ
  pub deadline : ℕ
  pub max_claim_bps : ℕ
  pub state : ClaimState
  pub extensions : ℕ

pub record Payout : Type 0 where
  pub claim_id : Symbol
  pub gross : ℤ
  pub amount : ℤ
  pub claimed_at : ℕ

pub data ClaimError : Type 0 where
  zero_window window_too_long bps_out_of_range already_open not_open already_claimed : ClaimError
  already_expired zero_amount negative_amount extension_limit_reached zero_extension : ClaimError

pub data ClaimEvent : Type 0 where
  opened_event extended_event expired_event : Symbol → ℕ → ClaimEvent
  claimed_event : Symbol → ℤ → ClaimEvent

-- The storage; an absent map reads as the empty one.
pub record ClaimStore : Type 0 where
  pub windows : List (Symbol × ClaimWindow)
  pub events : List ClaimEvent

abbrev pub ClaimCall : Type 0 → Type 0
ClaimCall A = Effect ClaimStore ClaimError A

abbrev pub bps_denominator : ℕ
bps_denominator = 10000

abbrev pub max_claim_bps_limit : ℕ
max_claim_bps_limit = 20000

abbrev pub max_window_s : ℕ
max_window_s = 2592000

abbrev pub max_extensions : ℕ
max_extensions = 2

abbrev pub announce : ClaimEvent → ClaimCall (Unit {0})
announce ev = writes (λ s. record s { events = s.events ++ (ev ∷ []) })

abbrev pub save : Symbol → ClaimWindow → ClaimCall (Unit {0})
save id w = writes (λ s. record s { windows = insert id w s.windows })

unfoldable pub claim_window : Symbol → ClaimStore → Option ClaimWindow
claim_window id s = lookup id s.windows

-- An open window past its deadline counts as expired.
abbrev pub state_at : ℕ → ClaimState → ℕ → ClaimState
state_at now opened deadline = if ltb deadline now then expired else opened
state_at now absent deadline = absent
state_at now claimed deadline = claimed
state_at now expired deadline = expired

abbrev pub state_of : ℕ → Option ClaimWindow → ClaimState
state_of now none = absent
state_of now (some w) = state_at now w.state w.deadline

unfoldable pub claim_state : Symbol → ℕ → ClaimStore → ClaimState
unfolding claim_window
claim_state id now s = state_of now (claim_window id s)

abbrev pub is_open : ClaimState → Bool
is_open opened = true
is_open _ = false

unfoldable pub is_claimable : Symbol → ℕ → ClaimStore → Bool
unfolding claim_state
is_claimable id now s = is_open (claim_state id now s)

abbrev pub seconds_of : ℕ → Option ClaimWindow → ℕ
seconds_of now none = 0
seconds_of now (some w) =
    if leb w.deadline now
    then 0
    else if ltb (u32_mod - 1) (w.deadline - now)
    then u32_mod - 1
    else w.deadline - now

unfoldable pub seconds_remaining : Symbol → ℕ → ClaimStore → ℕ
unfolding claim_window
seconds_remaining id now s = seconds_of now (claim_window id s)

unfoldable pub remaining_claim_time : Symbol → ℕ → ClaimStore → ℕ
unfolding is_claimable seconds_remaining
remaining_claim_time id now s =
    if is_open (claim_state id now s) then seconds_remaining id now s else 0

-- The error of a window that cannot be claimed.
abbrev pub refusal : ClaimState → ClaimError
refusal absent = already_expired
refusal expired = already_expired
refusal claimed = already_claimed
refusal opened = not_open

unfoldable pub capped_amount : ℤ → ℕ → ℤ
capped_amount gross bps =
    let capped = div_trunc (wrap_i128 (gross *ℤ pos bps)) bps_denominator in
    if ltb_ℤ capped (pos 1) then pos 1 else capped

unfoldable pub claimable_amount : Symbol → ℤ → ℕ → ClaimCall ℤ
unfolding claim_window claim_state capped_amount
claimable_amount id gross now = do
  refuse_if (ltb_ℤ gross (pos 0)) negative_amount
  refuse_if (eqb_ℤ gross (pos 0)) zero_amount
  state ← reads (claim_state id now)
  refuse_if (not (is_open state)) (refusal state)
  window ← found_or (← reads (claim_window id)) already_expired
  return_ok (capped_amount gross window.max_claim_bps)

-- What an existing window forbids.
abbrev pub reopening : Option ClaimWindow → ClaimCall (Unit {0})
reopening none = return_ok tt
reopening (some w) = elim w.state [
  | opened ↦ return_err already_open
  | claimed ↦ return_err already_claimed
  | absent ↦ return_ok tt
  | expired ↦ return_ok tt
]

abbrev pub new_window : Symbol → ℕ → ℕ → ℕ → ClaimWindow
new_window id opened_at deadline bps = record {
  claim_id = id;
  opened_at = opened_at;
  deadline = deadline;
  max_claim_bps = bps;
  state = opened;
  extensions = 0;
}

unfoldable pub open_claim_window : Symbol → ℕ → ℕ → ℕ → ClaimCall ℕ
unfolding claim_window
open_claim_window id opened_at window_seconds bps = do
  refuse_if (window_seconds == 0) zero_window
  refuse_if (ltb max_window_s window_seconds) window_too_long
  refuse_if (bps == 0 || ltb max_claim_bps_limit bps) bps_out_of_range
  existing ← reads (claim_window id)
  reopening existing
  let deadline = (opened_at + window_seconds) % u64_mod
  save id (new_window id opened_at deadline bps)
  announce (opened_event id deadline)
  return_ok deadline

abbrev pub new_payout : Symbol → ℤ → ℤ → ℕ → Payout
new_payout id gross amount now = record {
  claim_id = id;
  gross = gross;
  amount = amount;
  claimed_at = now;
}

unfoldable pub claim : Symbol → ℤ → ℕ → ClaimCall Payout
unfolding claimable_amount
claim id gross now = do
  amount ← claimable_amount id gross now
  window ← found_or (← reads (λ s. lookup id s.windows)) already_expired
  save id (record window { state = claimed })
  announce (claimed_event id amount)
  return_ok (new_payout id gross amount now)

-- What the state of a window says to an extension.
abbrev pub extendable : ℕ → ClaimWindow → ClaimCall (Unit {0})
extendable now w = elim w.state [
  | claimed ↦ return_err already_claimed
  | expired ↦ return_err already_expired
  | absent ↦ return_err not_open
  | opened ↦ refuse_if (ltb w.deadline now) already_expired
]

unfoldable pub extend_claim_deadline : Symbol → ℕ → ℕ → ClaimCall ℕ
extend_claim_deadline id extra now = do
  refuse_if (extra == 0) zero_extension
  refuse_if (ltb max_window_s extra) window_too_long
  window ← found_or (← reads (λ s. lookup id s.windows)) not_open
  extendable now window
  refuse_if (leb max_extensions window.extensions) extension_limit_reached
  let deadline = saturating_u64 (window.deadline + extra)
  save id
      (record window { deadline = deadline; extensions = saturating_u32 (window.extensions + 1) })
  announce (extended_event id deadline)
  return_ok deadline

-- What the state of a window says to its expiry.
abbrev pub expirable : ClaimState → ClaimCall (Unit {0})
expirable claimed = return_err already_claimed
expirable expired = return_err already_expired
expirable opened = return_ok tt
expirable absent = return_ok tt

unfoldable pub expire_claim : Symbol → ℕ → ClaimCall ℕ
expire_claim id now = do
  window ← found_or (← reads (λ s. lookup id s.windows)) not_open
  expirable window.state
  refuse_if (leb now window.deadline) not_open
  save id (record window { state = expired })
  announce (expired_event id (now - window.deadline))
  return_ok (now - window.deadline)

pub data ClaimOrder : Type 0 where
  open_order : Symbol → ℕ → ℕ → ℕ → ClaimOrder
  claim_order : Symbol → ℤ → ClaimOrder
  extend_order : Symbol → ℕ → ClaimOrder
  expire_order : Symbol → ClaimOrder

-- The caller hands the time of the call on.
abbrev pub run_order : ℕ → ClaimOrder → ClaimStore → ClaimStore
run_order now (open_order id opened_at window bps) s =
    kept s (open_claim_window id opened_at window bps now s)
run_order now (claim_order id gross) s = kept s (claim id gross now now s)
run_order now (extend_order id extra) s = kept s (extend_claim_deadline id extra now now s)
run_order now (expire_order id) s = kept s (expire_claim id now now s)
