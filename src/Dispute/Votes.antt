-- ===== src/Dispute/Votes.antt =====
-- Tallies that have not reached a quorum (sla_calculator/src/dispute.rs).
use noc_iq_contracts.Base.{
  ◌≤◌, ◌≡◌, refl, Bool, true, false, Option, none, some, List, [], ◌∷◌, ◌++◌, arith, ◌⊎◌, inl, inr,
  Bool-cases,
}
use noc_iq_contracts.Types.{Address}
use noc_iq_contracts.Dispute.State.{
  VoteDecision, uphold_outage, dismiss_outage, ArbitratorVote, DisputeRecord, is_active,
}
use noc_iq_contracts.Dispute.Settle.{
  VoteCount, no_votes, count_vote, count_votes, Verdict, verdict_of, try_tally_quorum,
}
use noc_iq_contracts.Dispute.Entry.{with_vote, is_among}

-- A count without a quorum, in which a frivolous tally has no vote to uphold.
abbrev pub Calm : VoteCount → Type 0
Calm c = (c.dismiss_count ≤ 1) × (c.all_frivolous_dismiss ≡ true → c.uphold_count ≡ 0)

count_votes-append :
    (xs : List ArbitratorVote) (v : ArbitratorVote) (c : VoteCount)
    → count_votes (xs ++ (v ∷ [])) c ≡ count_vote v.decision v.frivolous (count_votes xs c)
unfolding count_votes
count_votes-append [] v c = refl
count_votes-append (x ∷ xs) v c = count_votes-append xs v (count_vote x.decision x.frivolous c)

abbrev pub tally : DisputeRecord → VoteCount
tally d = count_votes d.votes_detail no_votes

-- Whether a tally slashes the bond.
abbrev pub slashes : Option Verdict → Bool
slashes none = false
slashes (some v) = v.slash_bond

slashes-verdict_of :
    (d : VoteDecision) (f : Bool) (c : VoteCount)
    → Calm c
    → slashes (verdict_of (count_vote d f c)) ≡ false
unfolding verdict_of
slashes-verdict_of uphold_outage f c h = ground arith
slashes-verdict_of dismiss_outage f c h = ground arith

slashes-verdict_of-Calm : (c : VoteCount) → Calm c → slashes (verdict_of c) ≡ false
unfolding verdict_of
slashes-verdict_of-Calm c h = ground arith

-- A count that is no quorum yet is calm after the vote that made it.
count_vote-Calm :
    (d : VoteDecision) (f : Bool) (c : VoteCount)
    → Calm c
    → verdict_of (count_vote d f c) ≡ none
    → Calm (count_vote d f c)
unfolding verdict_of
count_vote-Calm uphold_outage f c h e = ground arith
count_vote-Calm dismiss_outage f c h e = ground arith

-- What holds of every stored dispute.
abbrev pub IsCalm : DisputeRecord → Type 0
IsCalm d = is_active d.status ≡ true → Calm (tally d)

tally-with_vote :
    (a : Address) (decision : VoteDecision) (f : Bool) (d : DisputeRecord)
    → (tally (with_vote a decision f d) ≡ tally d)
      ⊎ (tally (with_vote a decision f d) ≡ count_vote decision f (tally d))
unfolding with_vote
tally-with_vote a decision f d = elim (Bool-cases (is_among a d.arbitrator_votes)) [
  | inl old ↦ inl (rw old)
  | inr new ↦ inr (rw new (count_votes-append d.votes_detail _ no_votes))
]

module _ (a : Address) (decision : VoteDecision) (f : Bool) (d : DisputeRecord)
    (h : Calm (tally d)) where
  pub with_vote-slashes : slashes (try_tally_quorum (with_vote a decision f d)) ≡ false
  unfolding try_tally_quorum
  with_vote-slashes = elim (tally-with_vote a decision f d) [
    | inl e ↦ rw e (slashes-verdict_of-Calm (tally d) h)
    | inr e ↦ rw e (slashes-verdict_of decision f (tally d) h)
  ]

  pub with_vote-Calm :
      try_tally_quorum (with_vote a decision f d) ≡ none → Calm (tally (with_vote a decision f d))
  unfolding try_tally_quorum
  with_vote-Calm e = elim (tally-with_vote a decision f d) [
    | inl same ↦ rw same h
    | inr more ↦ rw more (count_vote-Calm decision f (tally d) h (rw more at e))
  ]
