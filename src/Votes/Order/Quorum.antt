-- ===== src/Votes/Order/Quorum.antt =====
-- The quorum of votes that arrive in different orders (consensus-core/src/votes/pending_votes.rs).
use aptosbft.Votes.Quorum.{is_ok_iff}
use aptosbft.Common.{
  ite, ℕ, ◌≤◌, ◌<◌, ◌≡◌, refl, ◌∙◌, sym, true, Option, none, some, arith, List, [], ◌∷◌, sum, ◌↔◌,
  is_ok,
}
use aptosbft.Common.Map.{Map, get, values, IsDistinct, sum-keys_mono, insert-IsDistinct, insert}
use aptosbft.Traits.{Traits, Verifier, power_of, IsLawful}
use aptosbft.Crypto.{
  new as new_aggregator, signers, collect, check_quorum as check_aggregator, has_signed,
}
use aptosbft.Crypto.Signers.{collect-quorum, wrote}
use aptosbft.Votes.{PendingVotes, Key, key_eq, key_of, votes_at, add_vote, store, check_quorum}
use aptosbft.Votes.Receive.{votes_at-store, vote_at}
use aptosbft.Votes.Order.{add_votes}

module _ {T : Traits} where
  -- No signature stands twice among the votes for a block.
  abbrev pub IsKeyed : PendingVotes T → Type 0
  IsKeyed p = (key : Key T) → IsDistinct T.signature_eq (votes_at p key)

module _ {T : Traits} (verifier : Verifier T) where
  wrote-get :
      (id : T.NodeId) (m : Map T.Signature T.Vote) (sig : T.Signature) (vote : T.Vote)
      → get T.signature_eq sig m ≡ some vote
      → T.vote_author vote ≡ id
      → wrote verifier id (values m) ≡ true
  unfolding get
  wrote-get id [] sig vote h e = ground arith
  wrote-get id ((k, w) ∷ m) sig vote h e = ground (arith, wrote-get id m sig vote)

  wrote_mono :
      (id : T.NodeId) (m n : Map T.Signature T.Vote)
      → IsDistinct T.signature_eq m
      → ((sig : T.Signature) (vote : T.Vote)
          → get T.signature_eq sig m ≡ some vote
          → get T.signature_eq sig n ≡ some vote)
      → wrote verifier id (values m) ≡ true
      → wrote verifier id (values n) ≡ true
  unfolding get
  wrote_mono id [] n d h e = ground arith
  wrote_mono id ((k, w) ∷ m) n d h e = ground (
    arith,
    e,
    h k w,
    wrote-get id n k w,
    wrote_mono id m n d.1 (λ sig vote g. ground (arith, h sig vote, g, d.0)),
  )

  -- The power that the aggregator of the votes of a map counts.
  abbrev power : Map T.Signature T.Vote → ℕ
  power m = sum (power_of verifier) (signers (collect verifier (new_aggregator T) (values m)))

  power_mono :
      IsLawful verifier
      → (m n : Map T.Signature T.Vote) → IsDistinct T.signature_eq m
      → ((sig : T.Signature) (vote : T.Vote)
          → get T.signature_eq sig m ≡ some vote
          → get T.signature_eq sig n ≡ some vote)
      → power m ≤ power n
  unfolding has_signed
  power_mono lawful m n d h =
      let (_, distinct, _, signed) = collect-quorum verifier lawful (values m) in
      let (_, distinct', _, signed') = collect-quorum verifier lawful (values n) in
      sum-keys_mono T.node_id_eq (power_of verifier)
        (collect verifier (new_aggregator T) (values m)).signatures
        (collect verifier (new_aggregator T) (values n)).signatures distinct distinct'
        (λ id c. ground (arith, signed id, signed' id, wrote_mono id m n d h, c))

  aggregator_iff :
      IsLawful verifier
      → (m : Map T.Signature T.Vote)
      → (is_ok (check_aggregator (collect verifier (new_aggregator T) (values m)) verifier) ≡ true)
        ↔ (verifier.quorum_voting_power ≤ power m)
  aggregator_iff lawful m =
      let (there, back) = (collect-quorum verifier lawful (values m)).0 in
      let (ok_there, ok_back) =
        is_ok_iff verifier
          (check_aggregator (collect verifier (new_aggregator T) (values m)) verifier) in
      (λ h. there (ok_there h), λ h. ok_back (back h))

  check_quorum_iff :
      IsLawful verifier
      → (p : PendingVotes T) (key : Key T) → 0 < verifier.quorum_voting_power
      → (check_quorum p key verifier ≡ true)
        ↔ (verifier.quorum_voting_power ≤ power (votes_at p key))
  unfolding check_quorum collect new_aggregator
  check_quorum_iff lawful p key positive = go (get (key_eq T) key p.votes) refl
    where
      go :
          (found : Option (Map T.Signature T.Vote))
          → get (key_eq T) key p.votes ≡ found
          → (check_quorum p key verifier ≡ true)
            ↔ (verifier.quorum_voting_power ≤ power (votes_at p key))
      go none e = rw (e, check_quorum) (λ h. ground arith, λ h. ground (arith, h, positive))
      go (some m) e = rw (e, check_quorum, votes_at) (aggregator_iff lawful m)

  -- Two blocks' votes that agree by signature, whatever their order, agree on the quorum.
  pub check_quorum_same :
      IsLawful verifier
      → 0 < verifier.quorum_voting_power
      → (p q : PendingVotes T) (key : Key T) → IsDistinct T.signature_eq (votes_at p key)
      → IsDistinct T.signature_eq (votes_at q key)
      → ((sig : T.Signature) → vote_at p key sig ≡ vote_at q key sig)
      → check_quorum p key verifier ≡ check_quorum q key verifier
  check_quorum_same lawful positive p q key dp dq same = ground (
    arith,
    check_quorum_iff lawful p key positive,
    check_quorum_iff lawful q key positive,
    power_mono lawful (votes_at p key) (votes_at q key) dp (λ sig vote e. sym (same sig) ∙ e),
    power_mono lawful (votes_at q key) (votes_at p key) dq (λ sig vote e. same sig ∙ e),
  )

  ite-IsDistinct :
      {P : Type 0} (d : Dec P) (m n : Map T.Signature T.Vote)
      → IsDistinct T.signature_eq m
      → IsDistinct T.signature_eq n
      → IsDistinct T.signature_eq (ite d m n)
  ite-IsDistinct (yes p) m n hm hn = hm
  ite-IsDistinct (no q) m n hm hn = hn

  pub store-IsKeyed : (p : PendingVotes T) (vote : T.Vote) → IsKeyed p → IsKeyed (store p vote)
  store-IsKeyed p vote h key =
      let before = votes_at p (key_of T vote) in
      rw (votes_at-store p vote key) (
        ite-IsDistinct (key_eq T (key_of T vote) key)
          (insert T.signature_eq (T.vote_signature vote) vote before) (votes_at p key)
          (insert-IsDistinct T.signature_eq (T.vote_signature vote) vote before (h (key_of T vote)))
          (h key))

  pub add_vote-IsKeyed :
      (p : PendingVotes T) (vote : T.Vote) → IsKeyed p → IsKeyed (add_vote p vote verifier).0
  unfolding add_vote
  add_vote-IsKeyed p vote h = ground (arith, store-IsKeyed p vote h)

  pub add_votes-IsKeyed :
      (p : PendingVotes T) (votes : List T.Vote) → IsKeyed p → IsKeyed (add_votes p votes verifier)
  add_votes-IsKeyed p [] h = h
  add_votes-IsKeyed p (vote ∷ votes) h =
      add_votes-IsKeyed (add_vote p vote verifier).0 votes (add_vote-IsKeyed p vote h)
