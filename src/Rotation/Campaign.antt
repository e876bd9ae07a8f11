-- ===== src/Rotation/Campaign.antt =====
-- Which calls of a run are behind the stored proposal (sla_calculator/src/upgrade_path.rs).
use noc_iq_contracts.Base.{
  ℕ, Bool, List, ◌||◌, ◌≡◌, ◌++◌, ◌==◌, ◌∙◌, sym, ap, subst, refl, true, Option, none, some, [],
  ◌∷◌, any, arith, Bool-cases, inl, inr, ◌⊎◌, if◌then◌else◌,
}
use noc_iq_contracts.Types.{Address}
use noc_iq_contracts.Effect.Reach.{Reach, here, next}
use noc_iq_contracts.Rotation.{
  RotationProposal, KeyStore, KeyCall, upgrade_call, guardians_call, propose_call, execute_call,
  cancel_call, run_call, has, joined, approved_by,
}

-- A run that ends in a campaign for the admin `b`, which a guardian opened by a call at `first`:
-- after each later call there is a proposal for `b`.
pub data Campaign {start : KeyStore} (b : Address) (first : ℕ)
    : (t : KeyStore) → Reach run_call start t → Type 0 where
  opens :
      {t : KeyStore} (c : Address) (path : Reach run_call start t)
      → has c t.guardians ≡ true
      → Campaign b first (run_call first (propose_call c b) t) (next first (propose_call c b) path)
  goes_on :
      {t : KeyStore} {path : Reach run_call start t} (now : ℕ) (call : KeyCall)
      → Campaign b first t path
      → (p : RotationProposal) × ((run_call now call t).proposal ≡ some p) × (p.new_admin ≡ b)
      → Campaign b first (run_call now call t) (next now call path)

-- The address proposed `b` by a call of the campaign, at which it was a guardian.
abbrev pub Supports :
    {start : KeyStore} {b : Address} {first : ℕ}
    → Address
    → {t : KeyStore} {path : Reach run_call start t} → Campaign b first t path
    → Type 0
Supports x (opens c path g) = x ≡ c
Supports {b = b} x (goes_on {t = t} now call campaign stays) =
    ((call ≡ propose_call x b) × (has x t.guardians ≡ true)) ⊎ Supports x campaign

-- An execution or a cancellation leaves the proposal or removes it.
execute-proposal :
    (now : ℕ) (s : KeyStore)
    → ((run_call now execute_call s).proposal ≡ s.proposal)
      ⊎ ((run_call now execute_call s).proposal ≡ none)
unfolding run_call
execute-proposal now s = ground arith

cancel-proposal :
    (now : ℕ) (c : Address) (s : KeyStore)
    → ((run_call now (cancel_call c) s).proposal ≡ s.proposal)
      ⊎ ((run_call now (cancel_call c) s).proposal ≡ none)
unfolding run_call
cancel-proposal now c s = ground arith

upgrade-proposal :
    (now : ℕ) (c : Address) (s : KeyStore) → (run_call now (upgrade_call c) s).proposal ≡ s.proposal
unfolding run_call
upgrade-proposal now c s = ground arith

guardians-proposal :
    (now : ℕ) (c : Address) (gs : List Address) (s : KeyStore)
    → (run_call now (guardians_call c gs) s).proposal ≡ s.proposal
unfolding run_call
guardians-proposal now c gs s = ground arith

abbrev Backing : {start t : KeyStore} → Reach run_call start t → RotationProposal → Type 0
Backing {t = t} path p =
    (campaign : Campaign p.new_admin p.initiated_at t path) × ((x : Address)
      → has x p.approvals ≡ true
      → Supports x campaign)

-- A campaign stands behind the stored proposal, if there is one, with all its approvals.
abbrev pub IsBacked : {start t : KeyStore} → Reach run_call start t → Type 0
IsBacked {t = t} path = (p : RotationProposal) → t.proposal ≡ some p → Backing path p

module _ {start t : KeyStore} (path : Reach run_call start t) (now : ℕ) (call : KeyCall)
    (backed : IsBacked path) where
  unchanged-IsBacked : (run_call now call t).proposal ≡ t.proposal → IsBacked (next now call path)
  unchanged-IsBacked same p stored =
      let (campaign, support) = backed p (sym same ∙ stored) in
      (goes_on now call campaign (p, stored, refl), λ x h. inr (support x h))

  removed-IsBacked : (run_call now call t).proposal ≡ none → IsBacked (next now call path)
  removed-IsBacked gone p stored = absurd (cc)

  quiet-IsBacked :
      ((run_call now call t).proposal ≡ t.proposal) ⊎ ((run_call now call t).proposal ≡ none)
      → IsBacked (next now call path)
  quiet-IsBacked (inl same) = unchanged-IsBacked same
  quiet-IsBacked (inr gone) = removed-IsBacked gone

pub any_append : (p : ℕ → Bool) (xs : List ℕ) (y : ℕ) → any p (xs ++ (y ∷ [])) ≡ (any p xs || p y)
any_append p [] y = ground arith
any_append p (x ∷ xs) y = ground (arith, any_append p xs y)

-- What a guardian's call stores.
propose-proposal :
    (now : ℕ) (c a : Address) (s : KeyStore)
    → (run_call now (propose_call c a) s).proposal
      ≡ (if has c s.guardians then some (approved_by c (joined a now s.proposal)) else s.proposal)
unfolding run_call
propose-proposal now c a s = ground arith

approved_by-cases :
    (c : Address) (p : RotationProposal)
    → (approved_by c p ≡ p) ⊎ (approved_by c p ≡ record p { approvals = p.approvals ++ (c ∷ []) })
unfolding approved_by
approved_by-cases c p = elim (Bool-cases (has c p.approvals)) [
  | inl old ↦ inl (rw old refl)
  | inr new ↦ inr (rw new refl)
]

module _ {start t : KeyStore} (path : Reach run_call start t) (now : ℕ) (c a : Address)
    (guardian : has c t.guardians ≡ true) (backed : IsBacked path) where
  opened-Backing :
      Backing
        (next now (propose_call c a) path)
        (record { new_admin = a; initiated_at = now; approvals = c ∷ [] })
  opened-Backing = (opens c path guardian, λ x h. ground arith)

  joined-Backing :
      (q p : RotationProposal)
      → t.proposal ≡ some q
      → a ≡ q.new_admin
      → (run_call now (propose_call c a) t).proposal ≡ some p
      → p ≡ record q { approvals = q.approvals ++ (c ∷ []) }
      → Backing
          (next now (propose_call c a) path)
          (record q { approvals = q.approvals ++ (c ∷ []) })
  joined-Backing q p running same stored e =
      let (campaign, support) = backed q running in
      (
        goes_on now (propose_call c a) campaign (p, stored, rw e refl),
        λ x h. elim (Bool-cases (has x q.approvals)) [
          | inl old ↦ inr (support x old)
          | inr new ↦
              let me : x ≡ c = ground (arith, any_append (λ y. y == x) q.approvals c) in
              inl (rw (me, same) refl, rw me guardian)
        ],
      )

  -- What the call stores, for what was stored before.
  propose-Backing :
      (o : Option RotationProposal) (p : RotationProposal)
      → t.proposal ≡ o
      → (run_call now (propose_call c a) t).proposal ≡ some p
      → approved_by c (joined a now o) ≡ p
      → Backing (next now (propose_call c a) path) p
  unfolding joined approved_by
  propose-Backing none p before stored e =
      subst (Backing (next now (propose_call c a) path)) e opened-Backing
  propose-Backing (some q) p before stored e = elim (Bool-cases (q.new_admin == a)) [
    | inr other ↦
        let e' : record { new_admin = a; initiated_at = now; approvals = c ∷ [] } ≡ p =
          rw other at e in
        subst (Backing (next now (propose_call c a) path)) e' opened-Backing
    | inl same ↦ elim (Bool-cases (has c q.approvals)) [
      | inl old ↦
          let e' : q ≡ p = rw (same, old) at e in
          unchanged-IsBacked path now (propose_call c a) backed
            (stored ∙ ap some (sym e') ∙ sym before) p stored
      | inr new ↦
          let e' : record q { approvals = q.approvals ++ (c ∷ []) } ≡ p = rw (same, new) at e in
          subst (Backing (next now (propose_call c a) path)) e'
            (joined-Backing q p before (ground (arith, same)) stored (sym e'))
    ]
  ]

pub path-IsBacked :
    {start t : KeyStore} → start.proposal ≡ none → (path : Reach run_call start t) → IsBacked path
path-IsBacked fresh here = λ p stored. absurd (cc)
path-IsBacked fresh (next {t = t} now execute_call path) =
    quiet-IsBacked path now execute_call (path-IsBacked fresh path) (execute-proposal now t)
path-IsBacked fresh (next {t = t} now (cancel_call c) path) =
    quiet-IsBacked path now (cancel_call c) (path-IsBacked fresh path) (cancel-proposal now c t)
path-IsBacked fresh (next {t = t} now (upgrade_call c) path) =
    unchanged-IsBacked path now (upgrade_call c) (path-IsBacked fresh path)
      (upgrade-proposal now c t)
path-IsBacked fresh (next {t = t} now (guardians_call c gs) path) =
    unchanged-IsBacked path now (guardians_call c gs) (path-IsBacked fresh path)
      (guardians-proposal now c gs t)
path-IsBacked fresh (next {t = t} now (propose_call c a) path) =
    elim (Bool-cases (has c t.guardians)) [
      | inl guardian ↦ λ p stored.
          propose-Backing path now c a guardian (path-IsBacked fresh path) t.proposal p refl stored
            (ground (arith, propose-proposal now c a t, guardian, stored))
      | inr stranger ↦
          unchanged-IsBacked path now (propose_call c a) (path-IsBacked fresh path)
            (ground (arith, propose-proposal now c a t, stranger))
    ]
