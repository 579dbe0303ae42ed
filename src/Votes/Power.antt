-- ===== src/Votes/Power.antt =====
-- The ways to weigh the votes for a block, and their number
-- (consensus-core/src/votes/pending_votes.rs).
use aptosbft.Common.{
  ℕ, ◌+◌, ◌≤◌, ◌<◌, ◌≡◌, true, false, arith, List, [], ◌∷◌, some, sum, ap, none, length,
}
use aptosbft.Common.Map.{values, get, insert, contains_key, length-insert_new, sum-values-insert}
use aptosbft.Traits.{Traits, Verifier, power_of, IsLawful}
use aptosbft.Crypto.{new as new_aggregator, SignatureAggregator, collect, add_vote_of}
use aptosbft.Crypto.Signers.{collect-IsConsistent, new-IsConsistent, collect-quorum}
use aptosbft.Votes.{
  accepted, rejected, old_round, future_round, VoteReceptionResult, PendingVotes, Key, key_eq,
  key_of, votes_at, add_vote, aggregated_voting_power, can_form_quorum, quorum_completed,
  check_quorum, total_votes, store,
}
use aptosbft.Votes.Quorum.{author_power, quorum_completed_iff}
use aptosbft.Votes.Receive.{is_duplicate_lem, vote_at}

module _ {T : Traits} (verifier : Verifier T) where
  abbrev power_of_votes : List T.Vote → ℕ
  power_of_votes = sum λ vote. power_of verifier (T.vote_author vote)

  collect-power :
      (a : SignatureAggregator T) (votes : List T.Vote)
      → (collect verifier a votes).voting_power ≤ a.voting_power + power_of_votes votes
  unfolding collect add_vote_of
  collect-power a [] = omega arith
  collect-power a (vote ∷ votes) = ground (arith, collect-power (add_vote_of verifier a vote) votes)

  author_power-le :
      (p : PendingVotes T) (vote : T.Vote)
      → author_power verifier p vote
        ≤ aggregated_voting_power p (T.vote_round vote) (T.vote_block_id vote) verifier
  unfolding aggregated_voting_power new_aggregator
  author_power-le p vote =
      let votes = values (votes_at p (key_of T vote)) in
      omega (
        arith,
        collect-power (new_aggregator T) votes,
        (collect-IsConsistent verifier (new_aggregator T) votes
            (new-IsConsistent verifier)).weighed,
      )

  -- With a lawful verifier, a vote that completes a quorum leaves its block with enough power for
  -- can_form_quorum.
  pub quorum_completed_can_form :
      IsLawful verifier
      → (p : PendingVotes T) (vote : T.Vote) → (add_vote p vote verifier).1 ≡ quorum_completed
      → can_form_quorum
          (add_vote p vote verifier).0
          (T.vote_round vote)
          (T.vote_block_id vote)
          verifier
        ≡ true
  unfolding can_form_quorum
  quorum_completed_can_form lawful p vote h = ground (
    arith,
    ((quorum_completed_iff verifier lawful p vote).0 h).2,
    author_power-le (add_vote p vote verifier).0 vote,
  )

  collect_same_author :
      (vote vote' : T.Vote) (power : ℕ)
      → T.vote_author vote ≡ T.vote_author vote'
      → verifier.get_voting_power (T.vote_author vote) ≡ some power
      → (collect verifier (new_aggregator T) (vote ∷ vote' ∷ [])).voting_power ≡ power
  unfolding collect add_vote_of new_aggregator contains_key get insert
  collect_same_author vote vote' power same known =
      ground (arith, ap verifier.get_voting_power same)

  -- With a lawful verifier, where a block has two votes, of one known author with two signatures,
  -- and the author's power is below the quorum but reaches it twice over, can_form_quorum holds and
  -- the quorum check fails.
  pub can_form_quorum_counts_twice :
      IsLawful verifier
      → (p : PendingVotes T) (key : Key T) (sig sig' : T.Signature) (vote vote' : T.Vote)
        (power : ℕ)
      → get (key_eq T) key p.votes ≡ some ((sig, vote) ∷ (sig', vote') ∷ [])
      → T.vote_author vote ≡ T.vote_author vote'
      → verifier.get_voting_power (T.vote_author vote) ≡ some power
      → power < verifier.quorum_voting_power
      → verifier.quorum_voting_power ≤ power + power
      → (can_form_quorum p key.0 key.1 verifier ≡ true) × (check_quorum p key verifier ≡ false)
  unfolding can_form_quorum check_quorum
  can_form_quorum_counts_twice lawful p key sig sig' vote vote' power there same known low high =
      let votes : List T.Vote = vote ∷ vote' ∷ [] in
      let weighed =
        (collect-IsConsistent verifier (new_aggregator T) votes
          (new-IsConsistent verifier)).weighed in
      (
        ground (arith, ap verifier.get_voting_power same),
        ground (
          arith,
          (collect-quorum verifier lawful votes).0.0,
          weighed,
          collect_same_author vote vote' power same known,
        ),
      )

-- What a result adds to the number of recorded votes.
abbrev pub recorded : VoteReceptionResult → ℕ
recorded accepted = 1
recorded quorum_completed = 1
recorded (rejected _) = 0
recorded old_round = 0
recorded future_round = 0

module _ {T : Traits} where
  total_votes-store :
      (p : PendingVotes T) (vote : T.Vote)
      → vote_at p (key_of T vote) (T.vote_signature vote) ≡ none
      → total_votes (store p vote) ≡ total_votes p + 1
  unfolding total_votes store
  total_votes-store p vote new_vote =
      let votes = votes_at p (key_of T vote) in
      let more = insert T.signature_eq (T.vote_signature vote) vote votes in
      ground (
        arith,
        length-insert_new T.signature_eq (T.vote_signature vote) vote votes new_vote,
        sum-values-insert (key_eq T) length (key_of T vote) more p.votes,
      )

  -- The number of recorded votes grows by one where a vote is accepted or completes a quorum, and
  -- stays where it is refused.
  pub total_votes-add_vote :
      (p : PendingVotes T) (vote : T.Vote) (verifier : Verifier T)
      → total_votes (add_vote p vote verifier).0
        ≡ total_votes p + recorded (add_vote p vote verifier).1
  unfolding add_vote
  total_votes-add_vote p vote verifier =
      ground (arith, is_duplicate_lem p vote, total_votes-store p vote)
