-- ===== src/RoundManager/Cases.antt =====
-- Rules for the calls of the round manager (consensus-core/src/round_manager/mod.rs): what to show
-- of the state after a call.
use aptosbft.Common.{ℕ, ◌≡◌, refl, Result, ok, err, panic, arith}
use aptosbft.Traits.{Traits, Verifier, Error}
use aptosbft.Safety.Interface.{SafetyRules}
use aptosbft.Votes.{add_vote}
use aptosbft.RoundManager.{
  RoundManager, build_certificate, install_certificate, form_quorum_certificate_for_block,
  process_vote,
}

module _ {T : Traits} {S : SafetyRules T} (P : RoundManager S → Type 0) where
  form_cases :
      (m : RoundManager S) (block_id : T.Hash) (round : ℕ) (verifier : Verifier T)
      → P m
      → ((qc : T.QuorumCert)
          → build_certificate m block_id round verifier ≡ ok qc
          → P (install_certificate m round qc).0)
      → P (form_quorum_certificate_for_block m block_id round verifier).0
  unfolding form_quorum_certificate_for_block
  form_cases m block_id round verifier failed formed =
      go (build_certificate m block_id round verifier) refl
    where
      go :
          (r : Result Error T.QuorumCert)
          → build_certificate m block_id round verifier ≡ r
          → P (form_quorum_certificate_for_block m block_id round verifier).0
      go (ok qc) e = rw (e, form_quorum_certificate_for_block) (formed qc e)
      go (err x) e = rw (e, form_quorum_certificate_for_block) failed
      go panic e = rw (e, form_quorum_certificate_for_block) failed

  -- A vote changes nothing, or is added to the pending votes, perhaps with a certificate.
  pub process_vote_cases :
      (m : RoundManager S) (vote : T.Vote) (verifier : Verifier T)
      → let m' = record m { pending_votes = (add_vote m.pending_votes vote verifier).0 } in
        P m
        → P m'
        → ((qc : T.QuorumCert)
            → build_certificate m' (T.vote_block_id vote) (T.vote_round vote) verifier ≡ ok qc
            → P (install_certificate m' (T.vote_round vote) qc).0)
        → P (process_vote m vote verifier).0
  unfolding process_vote
  process_vote_cases m vote verifier same added formed = ground (arith, all)
    where
      m' : RoundManager S
      m' = record m { pending_votes = (add_vote m.pending_votes vote verifier).0 }

      all :
          P
            (form_quorum_certificate_for_block m'
              (T.vote_block_id vote)
              (T.vote_round vote)
              verifier).0
      all = form_cases m' (T.vote_block_id vote) (T.vote_round vote) verifier added formed
