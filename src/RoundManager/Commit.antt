-- ===== src/RoundManager/Commit.antt =====
-- From votes to a commit: the round manager (consensus-core/src/round_manager/mod.rs) over the
-- two-chain rules (consensus-core/src/safety_rules/two_chain.rs).
use aptosbft.Common.{
  [], ◌∷◌, ℕ, ◌+◌, ◌<◌, ◌≤◌, ◌≡◌, ap, some, List, length, ok, u64_size, All, arith, subst, sym, ◌∷◌,
  ◌++◌,
}
use aptosbft.Common.Map.{values}
use aptosbft.Traits.{Traits, Verifier, IsLawful}
use aptosbft.Safety.Interface.{two_chain}
use aptosbft.Safety.Rules.{should_commit}
use aptosbft.Safety.Commit.{observe_qc_commits}
use aptosbft.Votes.{Key, key_of, votes_at}
use aptosbft.RoundManager.{RoundManager}
use aptosbft.RoundManager.Progress.{
  joint_power, AreNew, NeverFails, IsCertified, feed, feed-completes,
}

-- A certificate that is made of votes of one round is for that round.
abbrev pub IsForRound : Traits → Type 0
IsForRound T =
    (votes : List T.Vote) (a : T.Aggregated) (qc : T.QuorumCert) (round : ℕ)
    → 0 < length votes
    → All (λ v. T.vote_round v ≡ round) votes
    → T.from_votes votes a ≡ ok qc
    → T.qc_round qc ≡ round

module _ {T : Traits} (verifier : Verifier T) where
  rounds-keys :
      (key : Key T) (votes : List T.Vote)
      → All (λ v. key_of T v ≡ key) votes
      → All (λ v. T.vote_round v ≡ key.0) votes
  rounds-keys key [] h = tt
  rounds-keys key (v ∷ vs) h = (ap (λ k. k.0) h.0, rounds-keys key vs h.1)

  IsCertified-commits :
      (m m' : RoundManager (two_chain T)) (key : Key T) (b : T.Block)
      → IsForRound T
      → IsCertified verifier m m' key
      → m.safety_rules.state.one_chain_round < key.0
      → m.safety_rules.state.preferred_round ≤ m.safety_rules.state.one_chain_round
      → key.0 < u64_size
      → T.block_round b ≡ key.0 + 1
      → should_commit T m'.safety_rules b ≡ some (T.parent_id b)
  IsCertified-commits m m' key b law c chain preferred bound next =
      let round =
        law c.votes c.signature c.qc key.0 c.nonempty (rounds-keys key c.votes c.for_block)
          c.made in
      subst (λ r. should_commit T r b ≡ some (T.parent_id b)) (sym c.observed)
        (observe_qc_commits T m.safety_rules c.qc b (omega (arith, round, chain)) preferred
          (omega (arith, round, bound)) (omega (arith, round, next))).0

  -- Under the conditions of a completed quorum, over the two-chain rules with a one-chain round
  -- below the block's round and not below the preferred round, and where a certificate is for the
  -- round of its votes: once the votes have completed the quorum, a proposal of the next round
  -- commits its parent.
  pub feed-commits :
      (m : RoundManager (two_chain T)) (key : Key T) (vs : List T.Vote) (b : T.Block)
      → IsLawful verifier
      → NeverFails verifier (two_chain T)
      → IsForRound T
      → m.pending_votes.current_round ≤ key.0
      → All (λ v. key_of T v ≡ key) (values (votes_at m.pending_votes key))
      → AreNew verifier m.round_state key (votes_at m.pending_votes key) vs
      → joint_power verifier (values (votes_at m.pending_votes key)) < verifier.quorum_voting_power
      → verifier.quorum_voting_power
        ≤ joint_power verifier (values (votes_at m.pending_votes key) ++ vs)
      → m.safety_rules.state.one_chain_round < key.0
      → m.safety_rules.state.preferred_round ≤ m.safety_rules.state.one_chain_round
      → key.0 < u64_size
      → T.block_round b ≡ key.0 + 1
      → (m' : RoundManager (two_chain T)) × (feed verifier m vs ≡ some m')
        × (should_commit T m'.safety_rules b ≡ some (T.parent_id b))
  feed-commits m key vs b lawful total law round filed new before after chain preferred bound next =
      let (m', fed, c) =
        feed-completes verifier m key vs lawful total round filed new before after in
      (m', fed, IsCertified-commits m m' key b law c chain preferred bound next)
