-- ===== src/RoundManager/Voting.antt =====
-- Votes for proposals in the round manager (consensus-core/src/round_manager/mod.rs).
use aptosbft.Common.{ℕ, ◌≤◌, ◌≡◌, Option, ok, arith, ◌⊎◌, ◌<◌, ◌≢◌, u64_max, none}
use aptosbft.Traits.{Traits}
use aptosbft.Safety.Rules.{record_vote}
use aptosbft.Safety.Voting.{safe_to_vote_iff}
use aptosbft.Safety.Interface.{SafetyRules, IsSafe, two_chain}
use aptosbft.RoundManager.{RoundManager, try_vote_for_proposal}

module _ {T : Traits} {S : SafetyRules T} (safe : IsSafe S) where
  abbrev pub last_vote : RoundManager S → ℕ
  last_vote m = S.last_voted_round m.safety_rules

  -- Over any safety rules that meet their laws, a proposal is voted for exactly if its round is not
  -- below the last vote and the safety rules allow it; its round is then the last vote, otherwise
  -- nothing changes.
  pub try_vote_cases :
      (m : RoundManager S) (proposal : T.Block) (tc : Option S.TimeoutCert)
      → let (m', result) = try_vote_for_proposal m proposal tc in
        ((last_vote m ≤ T.block_round proposal)
          × (S.safe_to_vote m.safety_rules proposal tc ≡ ok tt)
          × (result ≡ ok tt)
          × (last_vote m' ≡ T.block_round proposal))
        ⊎ (((T.block_round proposal < last_vote m)
              ⊎ (S.safe_to_vote m.safety_rules proposal tc ≢ ok tt))
            × (result ≢ ok tt)
            × (m' ≡ m))
  unfolding try_vote_for_proposal
  try_vote_cases m proposal tc =
      let round = T.block_round proposal in
      let raised = safe.record_vote_last m.safety_rules round in
      let (there, back) = safe.record_vote_ok m.safety_rules round in
      ground (arith, raised, there, back)

module _ {T : Traits} where
  -- Over the two-chain rules, a manager that votes for a proposal of a positive u64 round, not
  -- below its last vote, then also votes for every other proposal of the same round.
  pub votes_twice :
      (m : RoundManager (two_chain T)) (b c : T.Block)
      → 0 < T.block_round b
      → T.block_round b ≤ u64_max
      → T.block_round c ≡ T.block_round b
      → m.safety_rules.state.last_voted_round ≤ T.block_round b
      → let (m', first) = try_vote_for_proposal m b none in
        (first ≡ ok tt) × ((try_vote_for_proposal m' c none).1 ≡ ok tt)
  unfolding try_vote_for_proposal record_vote
  votes_twice m b c positive bound same above =
      let rules = m.safety_rules in
      let rules' = (record_vote rules (T.block_round b)).0 in
      let first = (safe_to_vote_iff T rules b none bound tt).1 positive in
      let second =
        (safe_to_vote_iff T rules' c none (omega (arith, bound, same)) tt).1
          (omega (arith, positive, same)) in
      ground (arith, first, second)
