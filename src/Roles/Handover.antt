-- ===== src/Roles/Handover.antt =====
-- The two-step handovers from proposal to acceptance (sla_calculator/src/lib.rs).
use noc_iq_contracts.Base.{
  ℕ, ◌-◌, ◌≤◌, ◌<◌, ◌≡◌, ◌⊎◌, Option, some, none, arith, leb, ◌==◌, ◌&&◌, if◌then◌else◌,
}
use noc_iq_contracts.Types.{
  Address, Env, PendingProposalInfo, u64_mod, no_pending_transfer, unauthorized,
}
use noc_iq_contracts.Storage.{Storage, Result, ok, err, commit}
use noc_iq_contracts.Roles.{
  age, proposal_expiration_seconds, propose_admin, accept_admin, propose_operator, accept_operator,
  get_pending_admin,
}

-- What comes of an acceptance by `c` at `later`, for a proposal of `target` at `start`.
abbrev pub outcome : Address → Address → ℕ → ℕ → Result (Unit {0})
outcome c target start later =
    if leb (later - start) 604800
    then (if c == target then ok tt else err unauthorized)
    else err no_pending_transfer

-- A proposal that the admin makes at one ledger and anyone tries to accept at a later one: within
-- seven days exactly the proposed address succeeds, anyone else is unauthorised, and after seven days
-- nobody succeeds. After the transaction the proposed address is the admin and no proposal is left
-- exactly where the acceptance succeeds; otherwise the admin and the proposal are as before.
pub propose_admin-accept_admin :
    (old new c : Address) (e later : Env) (s t : Storage)
    → propose_admin old new e s ≡ (ok tt, t)
    → e.timestamp ≤ later.timestamp
    → later.timestamp < u64_mod
    → let admitted = leb (later.timestamp - e.timestamp) 604800 && (c == new) in
      let after = commit t (accept_admin c later t) in
      ((accept_admin c later t).0 ≡ outcome c new e.timestamp later.timestamp)
      × (after.admin ≡ some (if admitted then new else old))
      × (after.pending_admin
          ≡ (if admitted then none else some (record { target = new; proposed_at = e.timestamp })))
unfolding propose_admin accept_admin
propose_admin-accept_admin old new c e later s t h order range = ground arith

-- The same of the operator's role; short of success the operator is the one before the proposal.
pub propose_operator-accept_operator :
    (admin new c : Address) (e later : Env) (s t : Storage)
    → propose_operator admin new e s ≡ (ok tt, t)
    → e.timestamp ≤ later.timestamp
    → later.timestamp < u64_mod
    → ((accept_operator c later t).0 ≡ outcome c new e.timestamp later.timestamp)
      × ((((accept_operator c later t).0 ≡ ok tt)
            × ((accept_operator c later t).1.operator ≡ some new)
            × ((accept_operator c later t).1.pending_operator ≡ none))
          ⊎ ((accept_operator c later t).1.operator ≡ s.operator))
unfolding propose_operator accept_operator
propose_operator-accept_operator admin new c e later s t h order range = ground arith

-- Whether the storage keeps a proposal that an acceptance would still take.
abbrev pub live : ℕ → Option PendingProposalInfo → Option Address
live now none = none
live now (some p) = if leb (age now p) proposal_expiration_seconds then some p.target else none

-- Under the current version `get_pending_admin` answers the address that could accept now, and
-- forgets an expired proposal; a second query at the same ledger answers the same.
pub get_pending_admin_twice :
    (e : Env) (s : Storage)
    → s.version ≡ some 1
    → let (r, t) = get_pending_admin e s in
      (r ≡ ok (live e.timestamp s.pending_admin))
      × (get_pending_admin e t ≡ (r, t))
      × (t.admin ≡ s.admin)
unfolding get_pending_admin
get_pending_admin_twice e s h = ground arith
