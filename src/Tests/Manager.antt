-- ===== src/Tests/Manager.antt =====
-- The theorems on the round manager at test data.
use aptosbft.Common.{
  Ascends, ◌+◌, ◌≡◌, ◌≢◌, ◌⊎◌, refl, none, some, List, [], ◌∷◌, map, ok, arith, max,
}
use aptosbft.Mock.{mock}
use aptosbft.Types.{no_quorum}
use aptosbft.Safety.Rules
use aptosbft.Round
use aptosbft.Safety.Interface.{two_chain, two_chain-IsSafe}
use aptosbft.Votes.{vote_count, add_vote}
use aptosbft.RoundManager.{
  RoundManager, RoundManagerConfig, new, try_vote_for_proposal, process_timeout, process_vote,
  build_certificate,
}
use aptosbft.RoundManager.History.{
  Call, votes_for, receives_vote, times_out, run, votes_cast, votes_cast-Ascends,
}
use aptosbft.RoundManager.Voting.{last_vote}
use aptosbft.RoundManager.Invariant.{InSync, run-InSync, new-InSync}
use aptosbft.RoundManager.Timeout.{process_timeout_cases, timeouts_stall, one_chain}
use aptosbft.RoundManager.Certificate.{process_vote_completed}
use aptosbft.Common.Map.{get, insert, contains_key, pair_eq}
use aptosbft.Common.{ℕ_discrete}
use aptosbft.Safety.Rules.{observe_qc}
use aptosbft.Votes.{store, check_quorum, get_votes}
use aptosbft.Crypto.{
  new as new_aggregator, collect, check_quorum as check_aggregator, add_vote_of, aggregate,
}
use aptosbft.Mock.ValidatorSet.{new as new_set, get_voting_power, check_voting_power}
use aptosbft.RoundManager.{form_quorum_certificate_for_block, install_certificate}
use aptosbft.Mock.{genesis, MockBlock}
use aptosbft.RoundManager.Voting.{votes_twice}
use aptosbft.Round.{is_current_epoch}
use aptosbft.Tests.{four_verifier, block, vote_of}

abbrev pub config : RoundManagerConfig
config = record { max_buffered_rounds = 10; round_timeout_ms = 5000; max_pending_votes = 1000 }

abbrev fresh : RoundManager (two_chain mock)
fresh = new config (Rules.new 0)

-- A vote, a timeout, a received vote and a second vote.
abbrev calls : List (Call (two_chain mock))
calls =
    votes_for (block 3) none
    ∷ times_out no_quorum
    ∷ receives_vote (vote_of 1) four_verifier
    ∷ votes_for (block 5) none
    ∷ []

votes_cast-Ascends_example :
    Ascends (last_vote (two_chain-IsSafe mock) fresh) (votes_cast fresh calls)
votes_cast-Ascends_example = votes_cast-Ascends (two_chain-IsSafe mock) fresh calls

run-InSync_example : InSync (run fresh calls)
run-InSync_example = run-InSync fresh calls (new-InSync (two_chain mock) config (Rules.new 0))

process_timeout_cases_example :
    let (m', result) = process_timeout fresh no_quorum in
    ((0 ≡ one_chain fresh)
      × (result ≡ ok tt)
      × (m'.round_state.round ≡ 0 + 1)
      × (one_chain m' ≡ one_chain fresh))
    ⊎ ((0 ≢ one_chain fresh) × (result ≢ ok tt) × (m' ≡ fresh))
unfolding new Round.new Rules.new
process_timeout_cases_example = process_timeout_cases fresh no_quorum (omega arith) (omega arith)

timeouts_stall_example :
    run (process_timeout fresh no_quorum).0 (map times_out (no_quorum ∷ no_quorum ∷ []))
    ≡ (process_timeout fresh no_quorum).0
unfolding new process_timeout Round.new Rules.new Rules.safe_to_timeout
timeouts_stall_example =
    timeouts_stall fresh no_quorum (no_quorum ∷ no_quorum ∷ []) (omega arith) (omega arith) refl

-- The votes of the validators 0 and 1 are pending in round 5.
abbrev collecting : RoundManager (two_chain mock)
collecting = record fresh {
  pending_votes = record {
    votes = ((5, 7), (0, vote_of 0) ∷ (1, vote_of 1) ∷ []) ∷ [];
    current_round = 5;
    max_rounds = 10;
  };
}

process_vote_completed_example :
    let m₀ = record collecting {
      pending_votes = (add_vote collecting.pending_votes (vote_of 2) four_verifier).0;
    } in
    let m' = (process_vote collecting (vote_of 2) four_verifier).0 in
    (qc : mock.QuorumCert) × (build_certificate m₀ 7 5 four_verifier ≡ ok qc)
    × (m'.round_state.quorum_cert ≡ some qc)
    × (m'.safety_rules.state.one_chain_round
        ≡ max collecting.safety_rules.state.one_chain_round (mock.qc_round qc))
    × (vote_count m'.pending_votes 5 7 ≡ 0)
unfolding process_vote new form_quorum_certificate_for_block build_certificate install_certificate
    get_votes add_vote store get insert contains_key pair_eq ℕ_discrete check_quorum
    check_aggregator collect add_vote_of new_aggregator get_voting_power check_voting_power new_set
    aggregate observe_qc Round.new
process_vote_completed_example =
    process_vote_completed (two_chain-IsSafe mock) collecting (vote_of 2) four_verifier refl

-- Another proposal of the round 3.
abbrev other : MockBlock
other = record { metadata = record genesis { round = 3; author = 2 }; transactions = [] }

votes_twice_example :
    let (m', first) = try_vote_for_proposal fresh (block 3) none in
    (first ≡ ok tt) × ((try_vote_for_proposal m' other none).1 ≡ ok tt)
unfolding new Rules.new
votes_twice_example =
    votes_twice fresh (block 3) other (omega arith) (omega arith) refl (omega arith)
