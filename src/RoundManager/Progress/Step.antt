-- ===== src/RoundManager/Progress/Step.antt =====
-- What a round manager does with a new vote (consensus-core/src/round_manager/mod.rs).
use aptosbft.Common.{
  ℕ, ◌<◌, ◌≤◌, ◌≡◌, refl, true, false, Bool, none, some, List, [], ◌∷◌, ◌++◌, ok, sum, arith, ◌⊎◌,
  inl, inr, ap, ◌∙◌, All, length, subst, sym, All-append,
}
use aptosbft.Common.Map.{get, insert, values, values-insert_new}
use aptosbft.Traits.{Traits, Verifier, IsLawful, power_of}
use aptosbft.Safety.Interface.{SafetyRules}
use aptosbft.Crypto.{new as new_aggregator, signers, collect, aggregate, signatures}
use aptosbft.Round.{RoundState, is_current_epoch}
use aptosbft.Votes.{
  check_quorum, BlockVotes, Key, key_of, votes_at, quorum_completed, accepted, store, PendingVotes,
  get_votes, add_vote,
}
use aptosbft.RoundManager.{
  RoundManager, process_vote, PendingVotes, build_certificate, form_quorum_certificate_for_block,
  get_votes, install_certificate, add_vote,
}
use aptosbft.Crypto.Signers.{collect-quorum}
use aptosbft.Votes.Quorum.{check_quorum-store}
use aptosbft.Votes.Receive.{votes_at-store, is_duplicate_lem}

module _ {T : Traits} (verifier : Verifier T) where
  -- The power of the distinct, known authors of votes.
  abbrev pub joint_power : List T.Vote → ℕ
  joint_power votes = sum (power_of verifier) (signers (collect verifier (new_aggregator T) votes))

  -- Valid votes of the epoch for one block, each with a signature that is new.
  abbrev pub AreNew : RoundState T → Key T → BlockVotes T → List T.Vote → Type 0
  AreNew state key votes [] = Unit
  AreNew state key votes (v ∷ vs) =
      (key_of T v ≡ key)
      × (verifier.verify v ≡ ok tt)
      × (is_current_epoch state (T.vote_epoch v) ≡ true)
      × (get T.signature_eq (T.vote_signature v) votes ≡ none)
      × AreNew state key (insert T.signature_eq (T.vote_signature v) v votes) vs

  -- Nothing fails that a certificate is made by.
  pub record NeverFails (S : SafetyRules T) : Type 0 where
    pub aggregates :
        (signatures : List T.Signature)
        → (a : T.Aggregated) × (verifier.aggregate_signatures signatures ≡ ok a)
    pub certifies :
        (votes : List T.Vote) (a : T.Aggregated)
        → (qc : T.QuorumCert) × (T.from_votes votes a ≡ ok qc)
    pub observes : (r : S.Rules) (qc : T.QuorumCert) → (S.observe_qc r qc).1 ≡ ok tt

  -- From one state to a later one a certificate was made of votes for a block that hold the quorum,
  -- shown to the safety rules and stored.
  pub record IsCertified {S : SafetyRules T} (m m' : RoundManager S) (key : Key T) : Type 0 where
    pub qc : T.QuorumCert
    pub votes : List T.Vote
    pub signature : T.Aggregated
    pub for_block : All (λ v. key_of T v ≡ key) votes
    pub nonempty : 0 < length votes
    pub enough : verifier.quorum_voting_power ≤ joint_power votes
    pub made : T.from_votes votes signature ≡ ok qc
    pub stored : m'.round_state.quorum_cert ≡ some qc
    pub observed : m'.safety_rules ≡ (S.observe_qc m.safety_rules qc).0

  pub votes_at-key_of :
      (p : PendingVotes T) (v : T.Vote)
      → votes_at (store p v) (key_of T v)
        ≡ insert T.signature_eq (T.vote_signature v) v (votes_at p (key_of T v))
  votes_at-key_of p v = ground (arith, votes_at-store p v (key_of T v))

  -- A new vote stands after the others of its block.
  values-store :
      (p : PendingVotes T) (v : T.Vote)
      → get T.signature_eq (T.vote_signature v) (votes_at p (key_of T v)) ≡ none
      → values (votes_at (store p v) (key_of T v)) ≡ values (votes_at p (key_of T v)) ++ (v ∷ [])
  values-store p v h =
      ap values (votes_at-key_of p v)
      ∙ values-insert_new T.signature_eq (T.vote_signature v) v (votes_at p (key_of T v)) h

  -- A certificate is made of votes that hold the quorum.
  build-certificate :
      {S : SafetyRules T} (m : RoundManager S) (key : Key T)
      → IsLawful verifier
      → NeverFails S
      → verifier.quorum_voting_power ≤ joint_power (values (votes_at m.pending_votes key))
      → (qc : T.QuorumCert) × (a : T.Aggregated) × (T.from_votes
            (values (votes_at m.pending_votes key))
            a
          ≡ ok qc)
        × (build_certificate m key.1 key.0 verifier ≡ ok qc)
  unfolding build_certificate get_votes aggregate
  build-certificate m key lawful total enough =
      let votes = values (votes_at m.pending_votes key) in
      let a = collect verifier (new_aggregator T) votes in
      let (agg, aggregated) = total.aggregates (signatures a) in
      let (qc, certified) = total.certifies votes agg in
      let checked = (collect-quorum verifier lawful votes).0.1 enough in
      (qc, agg, certified, ground (arith, checked, aggregated, certified))

  -- What the manager does with a new vote of its epoch.
  abbrev pub Steps : {S : SafetyRules T} → RoundManager S → T.Vote → Type 0
  Steps {S} m v =
      ((qc : T.QuorumCert) × (a : T.Aggregated) × (T.from_votes
            (values (votes_at (store m.pending_votes v) (key_of T v))) a
          ≡ ok qc)
        × (verifier.quorum_voting_power
            ≤ joint_power (values (votes_at (store m.pending_votes v) (key_of T v))))
        × ((process_vote m v verifier).1 ≡ ok quorum_completed)
        × ((process_vote m v verifier).0.round_state.quorum_cert ≡ some qc)
        × ((process_vote m v verifier).0.safety_rules ≡ (S.observe_qc m.safety_rules qc).0))
      ⊎ ((joint_power (values (votes_at (store m.pending_votes v) (key_of T v)))
            < verifier.quorum_voting_power)
          × (process_vote m v verifier
              ≡ (record m { pending_votes = store m.pending_votes v }, ok accepted)))

  pub process_vote-Steps :
      {S : SafetyRules T} (m : RoundManager S) (v : T.Vote)
      → IsLawful verifier
      → NeverFails S
      → verifier.verify v ≡ ok tt
      → is_current_epoch m.round_state (T.vote_epoch v) ≡ true
      → m.pending_votes.current_round ≤ T.vote_round v
      → get T.signature_eq (T.vote_signature v) (votes_at m.pending_votes (key_of T v)) ≡ none
      → Steps m v
  unfolding process_vote form_quorum_certificate_for_block install_certificate add_vote
  process_vote-Steps {S} m v lawful total valid epoch round unsent =
      go (check_quorum p' (key_of T v) verifier) refl
    where
      p' : PendingVotes T
      p' = store m.pending_votes v

      m' : RoundManager S
      m' = record m { pending_votes = p' }

      go : (b : Bool) → check_quorum p' (key_of T v) verifier ≡ b → Steps m v
      go true e =
          let enough = (check_quorum-store verifier lawful m.pending_votes v).0 e in
          let (qc, a, made, built) = build-certificate m' (key_of T v) lawful total enough in
          let seen = total.observes m.safety_rules qc in
          let new = is_duplicate_lem m.pending_votes v in
          inl (
            qc,
            a,
            made,
            enough,
            ground (arith, e, built, seen, new),
            ground (arith, e, built, seen, new),
            ground (arith, e, built, seen, new),
          )
      go false e = inr (
        ground (arith, e, (check_quorum-store verifier lawful m.pending_votes v).1),
        ground (arith, e, is_duplicate_lem m.pending_votes v),
      )

  -- A vote for a block, and the others of the block.
  pub votes_at-same :
      (p : PendingVotes T) (v : T.Vote) (key : Key T)
      → key_of T v ≡ key
      → votes_at (store p v) key ≡ insert T.signature_eq (T.vote_signature v) v (votes_at p key)
  votes_at-same p v key same =
      subst
        (λ k. votes_at (store p v) k ≡ insert T.signature_eq (T.vote_signature v) v (votes_at p k))
        same (votes_at-key_of p v)

  pub values-same :
      (p : PendingVotes T) (v : T.Vote) (key : Key T)
      → key_of T v ≡ key
      → get T.signature_eq (T.vote_signature v) (votes_at p key) ≡ none
      → values (votes_at (store p v) key) ≡ values (votes_at p key) ++ (v ∷ [])
  values-same p v key same unsent =
      ap values (votes_at-same p v key same)
      ∙ values-insert_new T.signature_eq (T.vote_signature v) v (votes_at p key) unsent

  pub All-same :
      (p : PendingVotes T) (v : T.Vote) (key : Key T)
      → key_of T v ≡ key
      → get T.signature_eq (T.vote_signature v) (votes_at p key) ≡ none
      → All (λ w. key_of T w ≡ key) (values (votes_at p key))
      → All (λ w. key_of T w ≡ key) (values (votes_at (store p v) key))
  All-same p v key same unsent filed =
      subst (All (λ w. key_of T w ≡ key)) (sym (values-same p v key same unsent))
        (All-append (λ w. key_of T w ≡ key) (values (votes_at p key)) (v ∷ []) filed (same, tt))

  -- A certificate after a vote was stored is one from before on.
  pub IsCertified-store :
      {S : SafetyRules T} (m m' : RoundManager S) (p : PendingVotes T) (key : Key T)
      → IsCertified (record m { pending_votes = p }) m' key
      → IsCertified m m' key
  IsCertified-store m m' p key c = record {
    qc = c.qc;
    votes = c.votes;
    signature = c.signature;
    for_block = c.for_block;
    nonempty = c.nonempty;
    enough = c.enough;
    made = c.made;
    stored = c.stored;
    observed = c.observed;
  }
