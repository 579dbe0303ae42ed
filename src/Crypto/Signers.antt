-- ===== src/Crypto/Signers.antt =====
-- The signers of an aggregator (consensus-core/src/crypto/signature_aggregator.rs) and its quorum.
use aptosbft.Common.{
  ◌≡◌, refl, Bool, true, false, ite, none, some, List, [], ◌∷◌, arith, length, sum, ok, ◌||◌, ◌↔◌,
  ◌≤◌, ap, ◌&&◌, ◌∙◌, sym,
}
use aptosbft.Common.Map.{
  length-insert_new, IsDistinct, insert-IsDistinct, sum-keys-insert, get-insert, length-keys,
}
use aptosbft.Traits.{Traits, Verifier, power_of, IsLawful}
use aptosbft.Crypto.{
  SignatureAggregator, new, signers, add_vote_of, collect, has_signed, check_quorum,
}

module _ {T : Traits} (verifier : Verifier T) where
  -- The signers are distinct, and the counters are their number and their joint power.
  pub record IsConsistent (a : SignatureAggregator T) : Type 0 where
    pub distinct : IsDistinct T.node_id_eq a.signatures
    pub counted : a.signer_count ≡ length a.signatures
    pub weighed : a.voting_power ≡ sum (power_of verifier) (signers a)

  pub new-IsConsistent : IsConsistent (new T)
  unfolding new
  new-IsConsistent = record { distinct = tt; counted = refl; weighed = refl }

  add_vote_of-IsConsistent :
      (a : SignatureAggregator T) (vote : T.Vote)
      → IsConsistent a
      → IsConsistent (add_vote_of verifier a vote)
  unfolding add_vote_of
  add_vote_of-IsConsistent a vote c =
      let id = T.vote_author vote in
      let sig = T.vote_signature vote in
      record {
        distinct =
            ground
              (arith, c.distinct, insert-IsDistinct T.node_id_eq id sig a.signatures c.distinct);
        counted = ground (arith, c.counted, length-insert_new T.node_id_eq id sig a.signatures);
        weighed = ground (
          arith,
          c.weighed,
          sum-keys-insert T.node_id_eq (power_of verifier) id sig a.signatures,
        );
      }

  pub collect-IsConsistent :
      (a : SignatureAggregator T) (votes : List T.Vote)
      → IsConsistent a
      → IsConsistent (collect verifier a votes)
  unfolding collect
  collect-IsConsistent a [] c = c
  collect-IsConsistent a (vote ∷ votes) c =
      collect-IsConsistent (add_vote_of verifier a vote) votes (add_vote_of-IsConsistent a vote c)

  abbrev pub knows : T.NodeId → Bool
  knows id = elim (verifier.get_voting_power id) [ none ↦ false | some power ↦ true ]

  abbrev pub wrote : T.NodeId → List T.Vote → Bool
  wrote id [] = false
  wrote id (vote ∷ votes) = ite (T.node_id_eq (T.vote_author vote) id) true (wrote id votes)

  has_signed-add_vote_of :
      (a : SignatureAggregator T) (vote : T.Vote) (id : T.NodeId)
      → has_signed (add_vote_of verifier a vote) id
        ≡ (has_signed a id || knows id && wrote id (vote ∷ []))
  unfolding has_signed add_vote_of
  has_signed-add_vote_of a vote id = ground (
    arith,
    get-insert T.node_id_eq (T.vote_author vote) id (T.vote_signature vote) a.signatures,
    ap verifier.get_voting_power,
  )

  -- The signers are exactly the authors that the verifier knows, with those that stood there before.
  pub has_signed-collect :
      (a : SignatureAggregator T) (votes : List T.Vote) (id : T.NodeId)
      → has_signed (collect verifier a votes) id ≡ (has_signed a id || knows id && wrote id votes)
  unfolding collect
  has_signed-collect a [] id = ground arith
  has_signed-collect a (vote ∷ votes) id = ground (
    arith,
    has_signed-add_vote_of a vote id,
    has_signed-collect (add_vote_of verifier a vote) votes id,
  )

  -- With a verifier that keeps to its contract the quorum check is a test of the counted power.
  pub check_quorum_iff :
      IsLawful verifier
      → (a : SignatureAggregator T) → IsConsistent a
      → (check_quorum a verifier ≡ ok tt) ↔ (verifier.quorum_voting_power ≤ a.voting_power)
  unfolding check_quorum
  check_quorum_iff lawful a c = rw c.weighed (lawful.check_iff (signers a))

  -- With a lawful verifier, the quorum check of the aggregator that the loop over votes fills tests
  -- the joint power of its signers, which are distinct, counted by the signer count, and exactly
  -- the known authors of the votes.
  pub collect-quorum :
      IsLawful verifier
      → (votes : List T.Vote)
      → let a = collect verifier (new T) votes in
        ((check_quorum a verifier ≡ ok tt)
          ↔ (verifier.quorum_voting_power ≤ sum (power_of verifier) (signers a)))
        × IsDistinct T.node_id_eq a.signatures
        × (a.signer_count ≡ length (signers a))
        × ((id : T.NodeId) → has_signed a id ≡ (knows id && wrote id votes))
  unfolding has_signed new
  collect-quorum lawful votes =
      let a = collect verifier (new T) votes in
      let c = collect-IsConsistent (new T) votes new-IsConsistent in
      (
        rw (← c.weighed) (check_quorum_iff lawful a c),
        c.distinct,
        c.counted ∙ sym (length-keys a.signatures),
        λ id. has_signed-collect (new T) votes id,
      )
