-- ===== src/Tests/Votes.antt =====
-- The theorems on signers and pending votes at test data.
use mathlib.Core.List.{Pairwise, Permᴰ}
use aptosbft.Votes.Order.{add_votes, same_place, pair_apart}
use aptosbft.Votes.Order.Quorum.{IsKeyed}
use aptosbft.Votes.Unordered.Arrival.{arrival_unobserved, answers}
use aptosbft.Votes.Unordered.{SameVotes, IsLawfulCall}
use aptosbft.Votes.Filing.{Call, adds, sets_round, run}
use aptosbft.Common.{
  ℕ, ◌≤◌, ◌≡◌, ◌↔◌, refl, true, false, none, List, [], ◌∷◌, ok, arith, ℕ_discrete, length, sum,
  ◌&&◌, ◌<◌, ◌*◌, ite, some, All,
}
use aptosbft.Common.Map.{IsDistinct, get, contains_key, insert, pair_eq}
use aptosbft.Traits.{power_of, IsLawful}
use aptosbft.Mock.{mock, with_signature, MockVote}
use aptosbft.Mock.ValidatorSet.{
  MockValidatorSet, verifier, new as new_set, get_voting_power, check_voting_power,
}
use aptosbft.Mock.ValidatorSet.Laws.{verifier-IsLawful, power_in}
use aptosbft.Crypto.{
  new as new_aggregator, collect, check_quorum as check_aggregator, signers, has_signed,
  add_vote_of,
}
use aptosbft.Crypto.Signers.{collect-quorum, knows, wrote}
use aptosbft.Votes.{
  PendingVotes, new, store, add_vote, quorum_completed, can_form_quorum, check_quorum, Key, key_eq,
  vote_count,
}
use aptosbft.Votes.Receive.{vote_at, add, vote_at-add_vote}
use aptosbft.Votes.Quorum.{quorum_completed_iff, author_power}
use aptosbft.Votes.Power.{can_form_quorum_counts_twice}
use aptosbft.Votes.Overlap.{voted, quorums_overlap}
use aptosbft.Tests.{four, four_verifier, vote_of, validators}

-- Two votes of the validator 1 count once, the unknown validator 8 does not count.
abbrev signed : List MockVote
signed = vote_of 1 ∷ with_signature 1 7 5 9 ∷ vote_of 8 ∷ vote_of 2 ∷ []

collect-quorum_example :
    let a = collect four_verifier (new_aggregator mock) signed in
    ((check_aggregator a four_verifier ≡ ok tt)
      ↔ (four_verifier.quorum_voting_power ≤ sum (power_of four_verifier) (signers a)))
    × IsDistinct ℕ_discrete a.signatures
    × (a.signer_count ≡ length (signers a))
    × ((id : ℕ) → has_signed a id ≡ (knows four_verifier id && wrote four_verifier id signed))
collect-quorum_example = collect-quorum four_verifier (verifier-IsLawful four) signed

-- Two votes for the block 7 are pending.
abbrev two_votes : PendingVotes mock
two_votes = record {
  votes = ((5, 7), (0, vote_of 0) ∷ (1, vote_of 1) ∷ []) ∷ [];
  current_round = 5;
  max_rounds = 10;
}

vote_at-add_vote_example :
    vote_at (add_vote two_votes (vote_of 2) four_verifier).0 (5, 7) 2
    ≡ add mock (vote_at two_votes) two_votes.current_round (vote_of 2) (5, 7) 2
vote_at-add_vote_example = vote_at-add_vote two_votes (vote_of 2) four_verifier (5, 7) 2

quorum_completed_iff_example :
    ((add_vote two_votes (vote_of 2) four_verifier).1 ≡ quorum_completed) ↔ (
      (two_votes.current_round ≤ 5)
      × (vote_at two_votes (5, 7) 2 ≡ none)
      × (four_verifier.quorum_voting_power
          ≤ author_power four_verifier
              (add_vote two_votes (vote_of 2) four_verifier).0
              (vote_of 2)))
quorum_completed_iff_example =
    quorum_completed_iff four_verifier (verifier-IsLawful four) two_votes (vote_of 2)

third-completes : (add_vote two_votes (vote_of 2) four_verifier).1 ≡ quorum_completed
unfolding new add_vote store get insert contains_key pair_eq ℕ_discrete check_quorum
    check_aggregator collect add_vote_of new_aggregator get_voting_power check_voting_power new_set
third-completes = refl

-- Two of three shares of the power, which do not make a quorum, with one validator.
abbrev uneven : MockValidatorSet
uneven = new_set (record { id = 0; voting_power = 20 } ∷ record { id = 1; voting_power = 10 } ∷ [])

abbrev signed_twice : PendingVotes mock
signed_twice = record {
  votes = ((5, 7), (0, vote_of 0) ∷ (9, with_signature 0 7 5 9) ∷ []) ∷ [];
  current_round = 5;
  max_rounds = 10;
}

can_form_quorum_counts_twice_example :
    (can_form_quorum signed_twice 5 7 (verifier uneven) ≡ true)
    × (check_quorum signed_twice (5, 7) (verifier uneven) ≡ false)
unfolding new_set get get_voting_power pair_eq ℕ_discrete insert
can_form_quorum_counts_twice_example =
    can_form_quorum_counts_twice (verifier uneven) (verifier-IsLawful uneven) signed_twice (5, 7) 0
      9 (vote_of 0) (with_signature 0 7 5 9) 20 refl refl refl (omega arith) (omega arith)

-- The votes of the validator 2 complete two pending votes, for the blocks 7 and 8.
abbrev other_votes : PendingVotes mock
other_votes = record {
  votes = ((5, 8), (0, with_signature 0 8 5 0) ∷ (3, with_signature 3 8 5 3) ∷ []) ∷ [];
  current_round = 5;
  max_rounds = 10;
}

quorums_overlap_example :
    four.total_voting_power
    < 3
      * power_in
          (λ id.
            voted validators two_votes (vote_of 2) id
            && voted validators other_votes (with_signature 2 8 5 2) id)
          validators
unfolding new add_vote store get insert contains_key pair_eq ℕ_discrete check_quorum
    check_aggregator collect add_vote_of new_aggregator get_voting_power check_voting_power new_set
quorums_overlap_example =
    quorums_overlap validators two_votes other_votes (vote_of 2) (with_signature 2 8 5 2) refl refl

-- Two votes for the block 7 with different signatures.
two_apart : Pairwise (λ v w. same_place mock v w ≡ false) (vote_of 2 ∷ vote_of 3 ∷ [])
unfolding pair_eq ℕ_discrete
two_apart = pair_apart mock (vote_of 2) (vote_of 3) refl

two_votes-IsKeyed : IsKeyed two_votes
unfolding get ℕ_discrete
two_votes-IsKeyed key = go (key_eq mock (5, 7) key)
  where
    go :
        (d : Dec ((5, 7) ≡ key))
        → IsDistinct ℕ_discrete (elim (ite d (some ((0, vote_of 0) ∷ (1, vote_of 1) ∷ [])) none) [
          | none ↦ []
          | some votes ↦ votes
        ])
    go (yes e) = (refl, (refl, tt))
    go (no n) = tt

positive_quorum : 0 < four_verifier.quorum_voting_power
unfolding new_set
positive_quorum = omega arith

-- A further vote for the block 7, which is refused as a duplicate after the change of the round.
abbrev later_calls : List (Call mock)
later_calls = adds (vote_of 4) four_verifier ∷ sets_round 5 ∷ adds (vote_of 4) four_verifier ∷ []

later-IsLawfulCall : All IsLawfulCall later_calls
later-IsLawfulCall =
    let lawful : IsLawful four_verifier × (0 < four_verifier.quorum_voting_power) =
      (verifier-IsLawful four, positive_quorum) in
    (lawful, (tt, (lawful, tt)))

abbrev first_order : PendingVotes mock
first_order = add_votes two_votes (vote_of 2 ∷ vote_of 3 ∷ []) four_verifier

abbrev second_order : PendingVotes mock
second_order = add_votes two_votes (vote_of 3 ∷ vote_of 2 ∷ []) four_verifier

arrival_unobserved_example :
    (answers first_order later_calls ≡ answers second_order later_calls)
    × SameVotes (run first_order later_calls) (run second_order later_calls)
    × ((key : Key mock)
        → check_quorum (run first_order later_calls) key four_verifier
          ≡ check_quorum (run second_order later_calls) key four_verifier)
    × ((round block_id : ℕ)
        → vote_count (run first_order later_calls) round block_id
          ≡ vote_count (run second_order later_calls) round block_id)
arrival_unobserved_example =
    arrival_unobserved two_votes four_verifier later_calls (verifier-IsLawful four) positive_quorum
      (Permᴰ.swap refl refl) two_apart two_votes-IsKeyed later-IsLawfulCall
