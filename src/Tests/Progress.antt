-- ===== src/Tests/Progress.antt =====
-- The theorems on the way to a certificate and a commit, at test data.
use aptosbft.Common.{◌≡◌, refl, some, List, [], ◌∷◌, Result, ok, arith}
use aptosbft.Traits.{Traits, Verifier, IsLawful, Error}
use aptosbft.Mock.{mock, MockVote, MockQuorumCert, default_qc}
use aptosbft.Mock.ValidatorSet.Laws.{verifier-IsLawful}
use aptosbft.Safety.Rules
use aptosbft.Safety.Rules.{observe_qc, should_commit}
use aptosbft.Safety.Interface.{two_chain}
use aptosbft.RoundManager.{RoundManager, new}
use aptosbft.RoundManager.Progress.{NeverFails, IsCertified, feed, feed-completes}
use aptosbft.RoundManager.Commit.{IsForRound, feed-commits}
use aptosbft.Tests.{four, four_verifier, block, vote_of, certificate}
use aptosbft.Tests.Manager.{config}
use aptosbft.Round
use aptosbft.Votes
use aptosbft.Common.Map.{get, insert, contains_key, pair_eq}
use aptosbft.Crypto.{new as new_aggregator, collect, add_vote_of}
use aptosbft.Mock.ValidatorSet.{new as new_set, get_voting_power}
use aptosbft.Round.{is_current_epoch}
use aptosbft.Common.{ℕ_discrete}

-- The mock traits, with certificates of the round of the first vote.
abbrev certify : List MockVote → Result Error MockQuorumCert
certify [] = ok default_qc
certify (v ∷ vs) = ok (certificate v.round)

abbrev certified : Traits
certified = record mock { from_votes = λ votes signature. certify votes }

abbrev quorum : Verifier certified
quorum = record {
  verify = four_verifier.verify;
  get_voting_power = four_verifier.get_voting_power;
  total_voting_power = four_verifier.total_voting_power;
  quorum_voting_power = four_verifier.quorum_voting_power;
  check_voting_power = four_verifier.check_voting_power;
  aggregate_signatures = four_verifier.aggregate_signatures;
}

quorum-IsLawful : IsLawful quorum
quorum-IsLawful = record { check_iff = (verifier-IsLawful four).check_iff }

certify-returns : (votes : List MockVote) → (qc : MockQuorumCert) × (certify votes ≡ ok qc)
certify-returns [] = (default_qc, refl)
certify-returns (v ∷ vs) = (certificate v.round, refl)

quorum-NeverFails : NeverFails quorum (two_chain certified)
unfolding observe_qc
quorum-NeverFails = record {
  aggregates = λ signatures. (tt, refl);
  certifies = λ votes a. certify-returns votes;
  observes = λ r qc. refl;
}

certified-IsForRound : IsForRound certified
certified-IsForRound [] a qc round some_vote same made = elim some_vote [ ]
certified-IsForRound (v ∷ vs) a qc round some_vote same made = ground (arith, same.0, made)

abbrev fresh : RoundManager (two_chain certified)
fresh = new config (Rules.new 0)

abbrev three_votes : List MockVote
three_votes = vote_of 0 ∷ vote_of 1 ∷ vote_of 2 ∷ []

feed-completes_example :
    (m' : RoundManager (two_chain certified)) × (feed quorum fresh three_votes ≡ some m')
    × IsCertified quorum fresh m' (5, 7)
unfolding new Round.new Votes.new get get_voting_power new_set collect add_vote_of new_aggregator
    insert contains_key ℕ_discrete is_current_epoch pair_eq
feed-completes_example =
    feed-completes quorum fresh (5, 7) three_votes quorum-IsLawful quorum-NeverFails (omega arith)
      tt (refl, refl, refl, refl, (refl, refl, refl, refl, (refl, refl, refl, refl, tt)))
      (omega arith) (omega arith)

feed-commits_example :
    (m' : RoundManager (two_chain certified)) × (feed quorum fresh three_votes ≡ some m')
    × (should_commit certified m'.safety_rules (block 6) ≡ some 9)
unfolding new Round.new Votes.new get get_voting_power new_set collect add_vote_of new_aggregator
    insert contains_key ℕ_discrete is_current_epoch pair_eq Rules.new
feed-commits_example =
    feed-commits quorum fresh (5, 7) three_votes (block 6) quorum-IsLawful quorum-NeverFails
      certified-IsForRound (omega arith) tt
      (refl, refl, refl, refl, (refl, refl, refl, refl, (refl, refl, refl, refl, tt))) (omega arith)
      (omega arith) (omega arith) (omega arith) (omega arith) refl
