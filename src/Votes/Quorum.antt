-- ===== src/Votes/Quorum.antt =====
-- Quorums of the pending votes (consensus-core/src/votes/pending_votes.rs).
use aptosbft.Common.{ℕ, ◌≤◌, ◌≡◌, ◌↔◌, true, sum, arith, some, none, Result, is_ok, ok}
use aptosbft.Common.Map.{values, get, get-insert, insert}
use aptosbft.Traits.{Traits, Verifier, power_of, IsLawful}
use aptosbft.Crypto.{new as new_aggregator, signers, collect, check_quorum as check_aggregator}
use aptosbft.Crypto.Signers.{collect-quorum}
use aptosbft.Votes.{
  PendingVotes, key_eq, key_of, votes_at, add_vote, store, check_quorum, quorum_completed,
}
use aptosbft.Votes.Receive.{vote_at, is_duplicate_lem}

module _ {T : Traits} (verifier : Verifier T) where
  -- The power of the distinct, known authors of the votes for the block of a vote.
  abbrev pub author_power : PendingVotes T → T.Vote → ℕ
  author_power p vote =
      sum (power_of verifier)
        (signers (collect verifier (new_aggregator T) (values (votes_at p (key_of T vote)))))

  get-store :
      (p : PendingVotes T) (vote : T.Vote)
      → get (key_eq T) (key_of T vote) (store p vote).votes
        ≡ some (votes_at (store p vote) (key_of T vote))
  unfolding store
  get-store p vote = ground (
    arith,
    get-insert (key_eq T) (key_of T vote) (key_of T vote)
        (insert T.signature_eq (T.vote_signature vote) vote (votes_at p (key_of T vote))) p.votes,
  )

  pub is_ok_iff {ℓ} : {E : Type ℓ} (r : Result E (Unit {0})) → (is_ok r ≡ true) ↔ (r ≡ ok tt)
  is_ok_iff r = (λ h. ground arith, λ h. ground arith)

  pub check_quorum-store :
      IsLawful verifier
      → (p : PendingVotes T) (vote : T.Vote)
      → (check_quorum (store p vote) (key_of T vote) verifier ≡ true)
        ↔ (verifier.quorum_voting_power ≤ author_power (store p vote) vote)
  unfolding check_quorum
  check_quorum-store lawful p vote =
      rw (get-store p vote, check_quorum)
        (let votes = values (votes_at (store p vote) (key_of T vote)) in
          let (there, back) = (collect-quorum verifier lawful votes).0 in
          let (ok_there, ok_back) =
            is_ok_iff (check_aggregator (collect verifier (new_aggregator T) votes) verifier) in
          (λ h. there (ok_there h), λ h. ok_back (back h)))

  -- With a lawful verifier, add_vote reports a completed quorum exactly if the vote is for the
  -- current round or a later one, its signature is new for its block, and the distinct known
  -- authors of the block's votes then hold the quorum's power.
  pub quorum_completed_iff :
      IsLawful verifier
      → (p : PendingVotes T) (vote : T.Vote)
      → ((add_vote p vote verifier).1 ≡ quorum_completed) ↔ (
          (p.current_round ≤ T.vote_round vote)
          × (vote_at p (key_of T vote) (T.vote_signature vote) ≡ none)
          × (verifier.quorum_voting_power ≤ author_power (add_vote p vote verifier).0 vote))
  unfolding add_vote
  quorum_completed_iff lawful p vote =
      let (there, back) = check_quorum-store lawful p vote in
      (
        λ h. ground (arith, there, is_duplicate_lem p vote),
        λ h. ground (arith, back, is_duplicate_lem p vote),
      )
