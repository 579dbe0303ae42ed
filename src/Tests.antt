-- ===== src/Tests.antt =====
-- Test data for the modules below: the mock traits with four validators of power 10.
mod Rules
mod Votes
mod Manager
mod Progress
mod Liveness
mod Instance
mod Runtime
mod Reputation
mod Agreement
mod Dag
mod StateSync
use aptosbft.Common.{ℕ, List, [], ◌∷◌}
use aptosbft.Traits.{Verifier}
use aptosbft.Mock.{MockBlock, MockQuorumCert, MockVote, genesis, mock, new_vote}
use aptosbft.Mock.ValidatorSet.{MockValidator, MockValidatorSet, verifier, new}

abbrev pub validators : List MockValidator
validators =
    record { id = 0; voting_power = 10 }
    ∷ record { id = 1; voting_power = 10 }
    ∷ record { id = 2; voting_power = 10 }
    ∷ record { id = 3; voting_power = 10 }
    ∷ []

abbrev pub four : MockValidatorSet
four = new validators

abbrev pub four_verifier : Verifier mock
four_verifier = verifier four

-- A proposal of a round, on the parent 9.
abbrev pub block : ℕ → MockBlock
block round = record {
  metadata = record genesis { round = round; parent_id = 9 };
  transactions = [];
}

abbrev pub certificate : ℕ → MockQuorumCert
certificate round = record { metadata = record genesis { round = round }; block_id = 9 }

-- The vote of a validator for the block 7 in the round 5.
abbrev pub vote_of : ℕ → MockVote
vote_of author = new_vote author 7 5
