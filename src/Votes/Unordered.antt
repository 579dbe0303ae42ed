-- ===== src/Votes/Unordered.antt =====
-- The order in which the maps of pending votes hold their entries is not seen
-- (consensus-core/src/votes/pending_votes.rs).
pub mod Arrival
pub mod Quotient
use mathlib.Core.List.{Pairwise, Permᴰ}
use aptosbft.Common.{
  ℕ, ◌<◌, ◌≡◌, refl, ◌∙◌, ap, sym, true, Option, none, some, arith, List, [], ◌∷◌, All, length, sum,
  not, Bool, ◌==◌, leb, ◌-◌, ◌≤◌, false,
}
use aptosbft.Common.Map.{
  Map, get, IsDistinct, contains_key, keys, length-keys, sum-keys_mono, retain, get-retain,
}
use aptosbft.Traits.{Traits, Verifier, IsLawful}
use aptosbft.Votes.{
  PendingVotes, Key, key_eq, key_of, votes_at, add_vote, store, set_round, remove_round,
  check_quorum, vote_count, VoteReceptionResult, cleanup_old_votes,
}
use aptosbft.Votes.Receive.{
  vote_at, vote_at-add_vote, vote_at-set_round, vote_at-remove_round, vote_at-store,
  is_duplicate_lem, add,
}
use aptosbft.Votes.Filing.{Call, adds, sets_round, removes_round, step, run}
use aptosbft.Votes.Order.{add_votes, same_place, add_votes-Perm}
use aptosbft.Votes.Order.Quorum.{
  check_quorum_same, IsKeyed, store-IsKeyed, add_vote-IsKeyed, add_votes-IsKeyed,
}

module _ {T : Traits} where
  -- The same round and window, and the same vote for each block and signature.
  abbrev pub SameVotes : PendingVotes T → PendingVotes T → Type 0
  SameVotes p q =
      (p.current_round ≡ q.current_round)
      × (p.max_rounds ≡ q.max_rounds)
      × ((key : Key T) (sig : T.Signature) → vote_at p key sig ≡ vote_at q key sig)

  pub add_vote-kept :
      (p : PendingVotes T) (vote : T.Vote) (verifier : Verifier T)
      → ((add_vote p vote verifier).0.current_round ≡ p.current_round)
        × ((add_vote p vote verifier).0.max_rounds ≡ p.max_rounds)
  unfolding add_vote store
  add_vote-kept p vote verifier = ground arith

  pub add_vote-SameVotes :
      (p q : PendingVotes T) (vote : T.Vote) (verifier : Verifier T)
      → SameVotes p q
      → SameVotes (add_vote p vote verifier).0 (add_vote q vote verifier).0
  add_vote-SameVotes p q vote verifier (round, window, same) =
      let (kept, kept_window) = add_vote-kept p vote verifier in
      let (kept', kept_window') = add_vote-kept q vote verifier in
      (
        kept ∙ round ∙ sym kept',
        kept_window ∙ window ∙ sym kept_window',
        λ key sig.
            vote_at-add_vote p vote verifier key sig
            ∙ (λ i. add T (λ k s. same k s i) (round i) vote key sig)
            ∙ sym (vote_at-add_vote q vote verifier key sig),
      )

  pub set_round-SameVotes :
      (p q : PendingVotes T) (round : ℕ)
      → SameVotes p q
      → SameVotes (set_round p round) (set_round q round)
  unfolding set_round
  set_round-SameVotes p q round (_, window, same) = (
    refl,
    window,
    λ key sig. ground (
      arith,
      vote_at-set_round p round key sig,
      vote_at-set_round q round key sig,
      same key sig,
      window,
    ),
  )

  pub remove_round-SameVotes :
      (p q : PendingVotes T) (round : ℕ)
      → SameVotes p q
      → SameVotes (remove_round p round) (remove_round q round)
  unfolding remove_round
  remove_round-SameVotes p q round (current, window, same) = (
    current,
    window,
    λ key sig. ground (
      arith,
      vote_at-remove_round p round key sig,
      vote_at-remove_round q round key sig,
      same key sig,
    ),
  )

  pub step-SameVotes :
      (p q : PendingVotes T) (c : Call T) → SameVotes p q → SameVotes (step p c) (step q c)
  step-SameVotes p q (adds vote verifier) = add_vote-SameVotes p q vote verifier
  step-SameVotes p q (sets_round round) = set_round-SameVotes p q round
  step-SameVotes p q (removes_round round) = remove_round-SameVotes p q round

  -- The verifier of a call, where it has one, is lawful and has a positive quorum.
  abbrev pub IsLawfulCall : Call T → Type 0
  IsLawfulCall (adds vote verifier) = IsLawful verifier × (0 < verifier.quorum_voting_power)
  IsLawfulCall (sets_round round) = Unit
  IsLawfulCall (removes_round round) = Unit

  retain-IsKeyed :
      (p : PendingVotes T) (keep : Key T → Bool)
      → IsKeyed p
      → IsKeyed (record p { votes = retain keep p.votes })
  retain-IsKeyed p keep keyed key =
      ground (arith, get-retain (key_eq T) key keep p.votes, keyed key)

  set_round-IsKeyed : (p : PendingVotes T) (round : ℕ) → IsKeyed p → IsKeyed (set_round p round)
  unfolding set_round cleanup_old_votes
  set_round-IsKeyed p round =
      retain-IsKeyed (record p { current_round = round }) (λ key. leb (round - p.max_rounds) key.0)

  remove_round-IsKeyed :
      (p : PendingVotes T) (round : ℕ) → IsKeyed p → IsKeyed (remove_round p round)
  unfolding remove_round
  remove_round-IsKeyed p round = retain-IsKeyed p (λ key. not (key.0 == round))

  pub step-IsKeyed : (p : PendingVotes T) (c : Call T) → IsKeyed p → IsKeyed (step p c)
  step-IsKeyed p (adds vote verifier) = add_vote-IsKeyed verifier p vote
  step-IsKeyed p (sets_round round) = set_round-IsKeyed p round
  step-IsKeyed p (removes_round round) = remove_round-IsKeyed p round

  store-SameVotes :
      (p q : PendingVotes T) (vote : T.Vote)
      → SameVotes p q
      → (key : Key T) (sig : T.Signature)
      → vote_at (store p vote) key sig ≡ vote_at (store q vote) key sig
  store-SameVotes p q vote (_, _, same) key sig =
      ground (arith, vote_at-store p vote key sig, vote_at-store q vote key sig, same key sig)

  pub add_vote-result :
      (p q : PendingVotes T) (vote : T.Vote) (verifier : Verifier T)
      → IsLawful verifier
      → 0 < verifier.quorum_voting_power
      → IsKeyed p
      → IsKeyed q
      → SameVotes p q
      → (add_vote p vote verifier).1 ≡ (add_vote q vote verifier).1
  unfolding add_vote
  add_vote-result p q vote verifier lawful positive kp kq same = ground (
    arith,
    same.0,
    is_duplicate_lem p vote,
    is_duplicate_lem q vote,
    same.2 (key_of T vote) (T.vote_signature vote),
    check_quorum_same verifier lawful positive (store p vote) (store q vote) (key_of T vote)
        (store-IsKeyed verifier p vote kp (key_of T vote))
        (store-IsKeyed verifier q vote kq (key_of T vote))
        (store-SameVotes p q vote same (key_of T vote)),
  )
