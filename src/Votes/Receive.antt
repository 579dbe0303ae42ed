-- ===== src/Votes/Receive.antt =====
-- The abstract view of the recorded votes (consensus-core/src/votes/pending_votes.rs): a partial
-- function of key and signature.
use aptosbft.Common.{
  ℕ, ◌≡◌, false, true, ltb, if◌then◌else◌, ite, Option, none, some, arith, ◌==◌, leb, ◌-◌, not,
}
use aptosbft.Common.Map.{get, contains_key, insert, get-insert, get-retain, get-nil}
use aptosbft.Traits.{Traits, Verifier}
use aptosbft.Votes.{
  PendingVotes, Key, key_eq, key_of, votes_at, add_vote, store, is_duplicate, set_round,
  remove_round,
}

-- The abstract addition: a vote of the current round or a later one is recorded unless one with
-- its signature is there for its block.
abbrev pub add :
    (T : Traits)
    → (Key T → T.Signature → Option T.Vote)
    → ℕ
    → T.Vote
    → Key T
    → T.Signature
    → Option T.Vote
add T view current vote key sig =
    if ltb (T.vote_round vote) current
    then view key sig
    else elim (view (key_of T vote) (T.vote_signature vote)) [
      | some _ ↦ view key sig
      | none ↦
          ite (key_eq T (key_of T vote) key)
            (ite (T.signature_eq (T.vote_signature vote) sig) (some vote) (view key sig))
            (view key sig)
    ]

module _ {T : Traits} where
  -- The recorded vote of a block and a signature.
  abbrev pub vote_at : PendingVotes T → Key T → T.Signature → Option T.Vote
  vote_at p key sig = get T.signature_eq sig (votes_at p key)

  pub is_duplicate_lem :
      (p : PendingVotes T) (vote : T.Vote)
      → is_duplicate p vote
        ≡ elim (vote_at p (key_of T vote) (T.vote_signature vote)) [ none ↦ false | some _ ↦ true ]
  unfolding contains_key get
  is_duplicate_lem p vote = ground arith

  pub vote_at-store :
      (p : PendingVotes T) (vote : T.Vote) (key : Key T) (sig : T.Signature)
      → vote_at (store p vote) key sig
        ≡ ite
            (key_eq T (key_of T vote) key)
            (ite (T.signature_eq (T.vote_signature vote) sig) (some vote) (vote_at p key sig))
            (vote_at p key sig)
  unfolding store
  vote_at-store p vote key sig = ground (
    arith,
    get-insert (key_eq T) (key_of T vote) key
        (insert T.signature_eq (T.vote_signature vote) vote (votes_at p (key_of T vote))) p.votes,
    get-insert T.signature_eq (T.vote_signature vote) sig vote (votes_at p (key_of T vote)),
  )

  pub votes_at-store :
      (p : PendingVotes T) (vote : T.Vote) (key : Key T)
      → votes_at (store p vote) key
        ≡ ite
            (key_eq T (key_of T vote) key)
            (insert T.signature_eq (T.vote_signature vote) vote (votes_at p (key_of T vote)))
            (votes_at p key)
  unfolding store
  votes_at-store p vote key = ground (
    arith,
    get-insert (key_eq T) (key_of T vote) key
        (insert T.signature_eq (T.vote_signature vote) vote (votes_at p (key_of T vote))) p.votes,
  )

  -- add_vote on the nested maps implements the abstract addition of a vote to a partial function of
  -- key and signature, whatever the verifier says: a vote of the current round or a later one is
  -- recorded unless one with its signature is there for its block.
  pub vote_at-add_vote :
      (p : PendingVotes T) (vote : T.Vote) (verifier : Verifier T) (key : Key T) (sig : T.Signature)
      → vote_at (add_vote p vote verifier).0 key sig
        ≡ add T (vote_at p) p.current_round vote key sig
  unfolding add_vote
  vote_at-add_vote p vote verifier key sig =
      ground (arith, is_duplicate_lem p vote, vote_at-store p vote key sig)

  -- A change of the round keeps exactly the votes whose round is at most `max_rounds` behind.
  pub vote_at-set_round :
      (p : PendingVotes T) (round : ℕ) (key : Key T) (sig : T.Signature)
      → vote_at (set_round p round) key sig
        ≡ (if leb (round - p.max_rounds) key.0 then vote_at p key sig else none)
  unfolding set_round
  vote_at-set_round p round key sig = ground (
    arith,
    get-retain (key_eq T) key (λ (k : Key T). leb (round - p.max_rounds) k.0) p.votes,
    get-nil {V = T.Vote} T.signature_eq sig,
  )

  -- The removal of a round keeps exactly the votes of the others.
  pub vote_at-remove_round :
      (p : PendingVotes T) (round : ℕ) (key : Key T) (sig : T.Signature)
      → vote_at (remove_round p round) key sig
        ≡ (if key.0 == round then none else vote_at p key sig)
  unfolding remove_round
  vote_at-remove_round p round key sig = ground (
    arith,
    get-retain (key_eq T) key (λ (k : Key T). not (k.0 == round)) p.votes,
    get-nil {V = T.Vote} T.signature_eq sig,
  )
