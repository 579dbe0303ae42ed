-- ===== src/RoundManager/Progress.antt =====
-- The way of a round manager to a certificate (consensus-core/src/round_manager/mod.rs).
pub mod Step
pub use Step.{joint_power, AreNew, NeverFails, IsCertified}
use aptosbft.RoundManager.Progress.Step.{
  process_vote-Steps, votes_at-same, values-same, All-same, IsCertified-store,
}
use aptosbft.Common.{
  panic, subst, sym, ℕ, ◌<◌, ◌≤◌, ◌≡◌, refl, true, false, Bool, none, some, List, [], ◌∷◌, ◌++◌, ok,
  sum, arith, ◌⊎◌, inl, inr, ap, ◌∙◌, Option, err, All, All-append, length, length-append,
}
use aptosbft.Common.Map.{get, insert, values, values-insert_new, get-insert}
use mathlib.Core.List.{append-nil, append_assoc}
use aptosbft.Traits.{Traits, Verifier, IsLawful, power_of}
use aptosbft.Safety.Interface.{SafetyRules}
use aptosbft.Crypto.{new as new_aggregator, signers, collect, aggregate, signatures}
use aptosbft.Round.{RoundState, is_current_epoch}
use aptosbft.Votes.{
  check_quorum, BlockVotes, Key, key_of, votes_at, quorum_completed, accepted, store, PendingVotes,
  get_votes, key_eq, add_vote,
}
use aptosbft.RoundManager.{
  RoundManager, process_vote, PendingVotes, build_certificate, form_quorum_certificate_for_block,
  get_votes, install_certificate, add_vote, is_completed,
}
use aptosbft.Crypto.Signers.{collect-quorum}
use aptosbft.Votes.Quorum.{check_quorum-store}
use aptosbft.Votes.Receive.{is_duplicate_lem}

module _ {T : Traits} (verifier : Verifier T) where
  -- The manager once a vote has completed a quorum, none if no vote does.
  abbrev pub feed : {S : SafetyRules T} → RoundManager S → List T.Vote → Option (RoundManager S)
  feed m [] = none
  feed m (v ∷ vs) =
      let (m', result) = process_vote m v verifier in
      let rest = feed m' vs in
      elim result [
        | ok r ↦ elim (is_completed r) [ true ↦ some m' | false ↦ rest ]
        | err e ↦ rest
        | panic ↦ rest
      ]

  -- With a lawful verifier and where aggregation, certification and observation never fail: if the
  -- votes pending for a block of the current round or a later one hold less than the quorum, and
  -- together with further valid votes for it, of the epoch and with new signatures, their distinct
  -- known authors hold it, then one of these votes completes a quorum. A certificate is then made
  -- of votes for the block that hold the quorum, shown to the safety rules and stored.
  pub feed-completes :
      {S : SafetyRules T} (m : RoundManager S) (key : Key T) (vs : List T.Vote)
      → IsLawful verifier
      → NeverFails verifier S
      → m.pending_votes.current_round ≤ key.0
      → All (λ v. key_of T v ≡ key) (values (votes_at m.pending_votes key))
      → AreNew verifier m.round_state key (votes_at m.pending_votes key) vs
      → joint_power verifier (values (votes_at m.pending_votes key)) < verifier.quorum_voting_power
      → verifier.quorum_voting_power
        ≤ joint_power verifier (values (votes_at m.pending_votes key) ++ vs)
      → (m' : RoundManager S) × (feed m vs ≡ some m') × IsCertified verifier m m' key
  unfolding store
  feed-completes m key [] lawful total round filed new before after =
      let none_left : ⊥ = omega (
        arith,
        before,
        subst (λ votes. verifier.quorum_voting_power ≤ joint_power verifier votes)
            (append-nil (values (votes_at m.pending_votes key))) after,
      ) in
      elim none_left [ ]
  feed-completes {S} m key (v ∷ vs) lawful total round filed (same, valid, epoch, unsent, later)
        before after =
      elim (process_vote-Steps verifier m v lawful total valid epoch
        (omega (arith, round, ap (λ k. k.0) same))
        (subst (λ k. get T.signature_eq (T.vote_signature v) (votes_at p k) ≡ none) (sym same)
          unsent)) [
            | inl (qc, a, made, enough, done, has, seen) ↦ (
              (process_vote m v verifier).0,
              ground (arith, done),
              record {
                qc = qc;
                votes = values (votes_at (store p v) key);
                signature = a;
                for_block = filed';
                nonempty =
                    ground
                      (arith, ap length grown, length-append (values (votes_at p key)) (v ∷ []));
                enough =
                    subst
                      (λ k.
                        verifier.quorum_voting_power
                        ≤ joint_power verifier (values (votes_at (store p v) k)))
                      same enough;
                made =
                    subst (λ k. T.from_votes (values (votes_at (store p v) k)) a ≡ ok qc) same made;
                stored = has;
                observed = seen;
              },
            )
            | inr (short, e) ↦
                let (m'', fed, c) =
                  feed-completes m' key vs lawful total round filed'
                    (subst (λ votes. AreNew verifier m.round_state key votes vs)
                      (sym (votes_at-same verifier p v key same)) later)
                    (subst
                      (λ k.
                        joint_power verifier (values (votes_at (store p v) k))
                        < verifier.quorum_voting_power)
                      same short)
                    (subst (λ votes. verifier.quorum_voting_power ≤ joint_power verifier votes)
                      (sym appended) after) in
                (m'', ground (arith, e, fed), IsCertified-store verifier m m'' (store p v) key c)
          ]
    where
      p : PendingVotes T
      p = m.pending_votes

      m' : RoundManager S
      m' = record m { pending_votes = store p v }

      grown : values (votes_at (store p v) key) ≡ values (votes_at p key) ++ (v ∷ [])
      grown = values-same verifier p v key same unsent

      filed' : All (λ w. key_of T w ≡ key) (values (votes_at (store p v) key))
      filed' = All-same verifier p v key same unsent filed

      appended : values (votes_at (store p v) key) ++ vs ≡ values (votes_at p key) ++ (v ∷ vs)
      appended =
          ap (λ votes. votes ++ vs) grown ∙ append_assoc (values (votes_at p key)) (v ∷ []) vs
