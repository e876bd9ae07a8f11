-- ===== src/Rotation/Safety.antt =====
-- What the rotation of the admin key needs (sla_calculator/src/upgrade_path.rs).
use noc_iq_contracts.Base.{
  ℕ, ◌+◌, ◌%◌, ◌≤◌, ◌≡◌, ◌≢◌, ◌∙◌, subst, ◌==◌, refl, true, false, Option, none, some, List, [],
  ◌∷◌, ◌++◌, length, arith, Option-cases, Bool-cases, inl, inr, ◌⊎◌,
}
use noc_iq_contracts.Types.{Address, u64_mod}
use noc_iq_contracts.Effect.{ok}
use noc_iq_contracts.Effect.Reach.{Reach, Reach-keeps}
use noc_iq_contracts.Rotation.Campaign.{Campaign, Supports, path-IsBacked, any_append}
use noc_iq_contracts.Rotation.{
  RotationProposal, KeyStore, propose_key_rotation, KeyCall, upgrade_call, guardians_call,
  propose_call, execute_call, cancel_call, run_call, has, has_repeat, joined, approved_by,
}

has_repeat-append :
    (xs : List Address) (a : Address)
    → has_repeat xs ≡ false
    → has a xs ≡ false
    → has_repeat (xs ++ (a ∷ [])) ≡ false
unfolding has_repeat
has_repeat-append [] a h k = refl
has_repeat-append (x ∷ xs) a h k =
    ground (arith, has_repeat-append xs a, any_append (λ y. y == x) xs a)

-- The approvals of the stored proposal are of different guardians.
abbrev IsFair : Option RotationProposal → Type 0
IsFair none = Unit
IsFair (some p) = has_repeat p.approvals ≡ false

joined-IsFair :
    (a : Address) (now : ℕ) (o : Option RotationProposal)
    → IsFair o
    → has_repeat (joined a now o).approvals ≡ false
unfolding joined has_repeat
joined-IsFair a now none h = refl
joined-IsFair a now (some p) h = ground arith

approved_by-IsFair :
    (c : Address) (p : RotationProposal)
    → has_repeat p.approvals ≡ false
    → has_repeat (approved_by c p).approvals ≡ false
unfolding approved_by
approved_by-IsFair c p h = ground (arith, has_repeat-append p.approvals c h)

run_call-IsFair :
    (now : ℕ) (call : KeyCall) (s : KeyStore)
    → IsFair s.proposal
    → IsFair (run_call now call s).proposal
unfolding run_call
run_call-IsFair now (upgrade_call c) s h = ground (arith, h)
run_call-IsFair now (guardians_call c gs) s h = ground (arith, h)
run_call-IsFair now (propose_call c a) s h =
    ground
      (arith, h, approved_by-IsFair c (joined a now s.proposal), joined-IsFair a now s.proposal h)
run_call-IsFair now execute_call s h = ground (arith, h)
run_call-IsFair now (cancel_call c) s h = ground (arith, h)

-- The run ends in a campaign for the admin `b` that three different addresses support, and that a
-- guardian opened at least 72 hours before `now` (modulo 2 ^ 64 seconds).
pub record IsSanctioned {start t : KeyStore} (path : Reach run_call start t) (now : ℕ) (b : Address)
    : Type 0 where
  pub first : ℕ
  pub campaign : Campaign b first t path
  pub one : Address
  pub two : Address
  pub three : Address
  pub apart_one_two : one ≢ two
  pub apart_one_three : one ≢ three
  pub apart_two_three : two ≢ three
  pub supports_one : Supports one campaign
  pub supports_two : Supports two campaign
  pub supports_three : Supports three campaign
  pub waited : (first + 259200) % u64_mod ≤ now

-- The proposal behind a change of the admin.
run_call-admin :
    (now : ℕ) (call : KeyCall) (s : KeyStore) (a b : Address)
    → s.admin ≡ some a
    → (run_call now call s).admin ≡ some b
    → a ≢ b
    → (call ≡ execute_call)
      × (p : RotationProposal) × (s.proposal ≡ some p)
      × (p.new_admin ≡ b)
      × (3 ≤ length p.approvals)
      × ((p.initiated_at + 259200) % u64_mod ≤ now)
unfolding run_call
run_call-admin now (upgrade_call c) s a b old new change = absurd (change (ground arith))
run_call-admin now (guardians_call c gs) s a b old new change = absurd (change (ground arith))
run_call-admin now (propose_call c x) s a b old new change = absurd (change (ground arith))
run_call-admin now (cancel_call c) s a b old new change = absurd (change (ground arith))
run_call-admin now execute_call s a b old new change = elim (Option-cases s.proposal) [
  | inl e ↦ absurd (change (ground arith))
  | inr (p, e) ↦ (refl, p, e, ground arith, ground arith, ground arith)
]

-- Three places of a list without repetitions.
three_of :
    (xs : List Address)
    → 3 ≤ length xs
    → has_repeat xs ≡ false
    → (x : Address) × (y : Address) × (z : Address) × (x ≢ y)
      × (x ≢ z)
      × (y ≢ z)
      × (has x xs ≡ true)
      × (has y xs ≡ true)
      × (has z xs ≡ true)
unfolding has_repeat
three_of [] long fair = absurd (ground arith)
three_of (x ∷ []) long fair = absurd (ground arith)
three_of (x ∷ y ∷ []) long fair = absurd (ground arith)
three_of (x ∷ y ∷ z ∷ xs) long fair = (
  x,
  y,
  z,
  λ e. ground arith,
  λ e. ground arith,
  λ e. ground arith,
  ground arith,
  ground arith,
  ground arith,
)

-- In every run from a storage without a proposal, a call that changes the admin is an execution, and
-- the run before it ends in a campaign for the new admin: a guardian opened it at least 72 hours
-- (modulo 2 ^ 64 seconds) before by proposing the new admin, since then every call left a proposal
-- for that admin, and three different addresses have proposed this admin in it, each of which was a
-- guardian when it did.
pub admin_change-IsSanctioned :
    (start : KeyStore) {t : KeyStore} (now : ℕ) (call : KeyCall) (a b : Address)
    → start.proposal ≡ none
    → (path : Reach run_call start t) → t.admin ≡ some a
    → (run_call now call t).admin ≡ some b
    → a ≢ b
    → (call ≡ execute_call) × IsSanctioned path now b
admin_change-IsSanctioned start {t} now call a b none_yet path old new change =
    let (executed, p, stored, target, quorum, waited) =
      run_call-admin now call t a b old new change in
    let fair =
      Reach-keeps run_call (λ s. IsFair s.proposal) run_call-IsFair path (rw none_yet tt) in
    let (x, y, z, xy, xz, yz, hx, hy, hz) = three_of p.approvals quorum (rw stored at fair) in
    let (campaign, support) = path-IsBacked none_yet path p stored in
    (
      executed,
      subst (IsSanctioned path now) target (record {
        first = p.initiated_at;
        campaign = campaign;
        one = x;
        two = y;
        three = z;
        apart_one_two = xy;
        apart_one_three = xz;
        apart_two_three = yz;
        supports_one = support x hx;
        supports_two = support y hy;
        supports_three = support z hz;
        waited = waited;
      }),
    )

abbrev pub Extends : RotationProposal → RotationProposal → Type 0
Extends q p =
    (p.initiated_at ≡ q.initiated_at)
    × ((x : Address) → has x q.approvals ≡ true → has x p.approvals ≡ true)

approved_by-Extends : (c : Address) (p : RotationProposal) → Extends p (approved_by c p)
unfolding approved_by
approved_by-Extends c p =
    (ground arith, λ x h. ground (arith, any_append (λ y. y == x) p.approvals c))

approved_by-admin : (c : Address) (p : RotationProposal) → (approved_by c p).new_admin ≡ p.new_admin
unfolding approved_by
approved_by-admin c p = ground arith

approved_by-has : (c : Address) (p : RotationProposal) → has c (approved_by c p).approvals ≡ true
unfolding approved_by
approved_by-has c p = ground (arith, any_append (λ y. y == c) p.approvals c)

joined-admin :
    (a : Address) (now : ℕ) (o : Option RotationProposal) → (joined a now o).new_admin ≡ a
unfolding joined
joined-admin a now none = refl
joined-admin a now (some q) = ground arith

-- The stored proposal after an approval, against the one before it.
abbrev pub Continues : Address → Address → ℕ → Option RotationProposal → RotationProposal → Type 0
Continues c a now o p =
    ((q : RotationProposal) × (o ≡ some q) × (q.new_admin ≡ a) × Extends q p)
    ⊎ ((p.initiated_at ≡ now) × (p.approvals ≡ c ∷ []))

joined-Continues :
    (c a : Address) (now : ℕ) (o : Option RotationProposal)
    → Continues c a now o (approved_by c (joined a now o))
unfolding joined approved_by
joined-Continues c a now none = inr (refl, refl)
joined-Continues c a now (some q) = elim (Bool-cases (q.new_admin == a)) [
  | inl same ↦ inl (q, refl, ground arith, rw same (approved_by-Extends c q))
  | inr other ↦ rw other (inr (refl, refl))
]

-- A guardian's call of `propose_key_rotation` succeeds, and leaves a proposal for the admin that
-- it names, which the guardian has approved. Approvals and time of a running proposal for the same
-- admin are kept; a running proposal for any other admin is lost with all its approvals, and the
-- time starts again.
propose_key_rotation-approvals :
    (c a : Address) (now : ℕ) (s : KeyStore)
    → has c s.guardians ≡ true
    → (p : RotationProposal) × ((propose_key_rotation c a now s).1.proposal ≡ some p)
      × ((propose_key_rotation c a now s).0 ≡ ok tt)
      × (p.new_admin ≡ a)
      × (has c p.approvals ≡ true)
      × Continues c a now s.proposal p
unfolding propose_key_rotation
propose_key_rotation-approvals c a now s g =
    let q = joined a now s.proposal in
    (
      approved_by c q,
      rw g refl,
      rw g refl,
      approved_by-admin c q ∙ joined-admin a now s.proposal,
      approved_by-has c q,
      joined-Continues c a now s.proposal,
    )
