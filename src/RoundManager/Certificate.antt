-- ===== src/RoundManager/Certificate.antt =====
-- Votes that complete a quorum in the round manager (consensus-core/src/round_manager/mod.rs).
use aptosbft.Common.{ℕ, ◌≡◌, refl, some, Result, ok, err, panic, max, arith, not, ◌==◌}
use aptosbft.Common.Map.{get-retain}
use aptosbft.Traits.{Error, Traits, Verifier}
use aptosbft.Safety.Interface.{SafetyRules, IsSafe}
use aptosbft.Votes.{PendingVotes, Key, key_eq, quorum_completed, add_vote, remove_round, vote_count}
use aptosbft.RoundManager.{
  RoundManager, build_certificate, install_certificate, form_quorum_certificate_for_block,
  process_vote,
}

module _ {T : Traits} where
  -- No vote of a removed round is left.
  vote_count-remove_round :
      (p : PendingVotes T) (round : ℕ) (block_id : T.Hash)
      → vote_count (remove_round p round) round block_id ≡ 0
  unfolding vote_count remove_round
  vote_count-remove_round p round block_id =
      ground
        (arith, get-retain (key_eq T) (round, block_id) (λ (k : Key T). not (k.0 == round)) p.votes)

module _ {T : Traits} {S : SafetyRules T} (safe : IsSafe S) where
  -- Over any safety rules that meet their laws, where process_vote returns a completed quorum, the
  -- pending votes with the new one made up a certificate, it is stored in the round state, the
  -- one-chain round has risen to its round, and no vote for the block is pending any more.
  pub process_vote_completed :
      (m : RoundManager S) (vote : T.Vote) (verifier : Verifier T)
      → (process_vote m vote verifier).1 ≡ ok quorum_completed
      → let m₀ = record m { pending_votes = (add_vote m.pending_votes vote verifier).0 } in
        let m' = (process_vote m vote verifier).0 in
        (qc : T.QuorumCert) × (build_certificate m₀
            (T.vote_block_id vote)
            (T.vote_round vote)
            verifier
          ≡ ok qc)
        × (m'.round_state.quorum_cert ≡ some qc)
        × (S.one_chain_round m'.safety_rules
            ≡ max (S.one_chain_round m.safety_rules) (T.qc_round qc))
        × (vote_count m'.pending_votes (T.vote_round vote) (T.vote_block_id vote) ≡ 0)
  unfolding process_vote form_quorum_certificate_for_block install_certificate
  process_vote_completed m vote verifier h =
      go (build_certificate m₀ (T.vote_block_id vote) (T.vote_round vote) verifier) refl
    where
      m₀ : RoundManager S
      m₀ = record m { pending_votes = (add_vote m.pending_votes vote verifier).0 }

      Goal : Type 0
      Goal =
          let m' = (process_vote m vote verifier).0 in
          (qc : T.QuorumCert) × (build_certificate m₀ (T.vote_block_id vote) (T.vote_round vote)
              verifier
            ≡ ok qc)
          × (m'.round_state.quorum_cert ≡ some qc)
          × (S.one_chain_round m'.safety_rules
              ≡ max (S.one_chain_round m.safety_rules) (T.qc_round qc))
          × (vote_count m'.pending_votes (T.vote_round vote) (T.vote_block_id vote) ≡ 0)

      go :
          (r : Result Error T.QuorumCert)
          → build_certificate m₀ (T.vote_block_id vote) (T.vote_round vote) verifier ≡ r
          → Goal
      go (ok qc) e = (
        qc,
        e,
        ground arith,
        ground (arith, safe.observe_qc_chain m.safety_rules qc),
        ground (
          arith,
          vote_count-remove_round m₀.pending_votes (T.vote_round vote) (T.vote_block_id vote),
        ),
      )
      go (err x) e = ground arith
      go panic e = ground arith
