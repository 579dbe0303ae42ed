-- ===== src/Votes/Unordered/Arrival.antt =====
-- Votes that arrive in different orders are not told apart by what follows
-- (consensus-core/src/votes/pending_votes.rs).
use mathlib.Core.List.{Pairwise, Permᴰ}
use aptosbft.Common.{
  ℕ, ◌<◌, ◌≡◌, refl, ◌∙◌, ap, sym, Option, none, some, arith, List, [], ◌∷◌, All, length, sum, ◌≤◌,
  false,
}
use aptosbft.Common.Map.{contains_key, keys, length-keys, sum-keys_mono}
use aptosbft.Traits.{Traits, Verifier, IsLawful}
use aptosbft.Votes.{
  PendingVotes, Key, votes_at, add_vote, check_quorum, vote_count, VoteReceptionResult,
}
use aptosbft.Votes.Filing.{Call, adds, sets_round, removes_round, step, run}
use aptosbft.Votes.Order.{add_votes, same_place, add_votes-Perm}
use aptosbft.Votes.Order.Quorum.{check_quorum_same, IsKeyed, add_votes-IsKeyed}
use aptosbft.Votes.Unordered.{
  SameVotes, IsLawfulCall, add_vote-kept, step-SameVotes, step-IsKeyed, add_vote-result,
}

sum_one : {A : Type 0} (xs : List A) → sum (λ x. 1) xs ≡ length xs
sum_one [] = refl
sum_one (x ∷ xs) = omega (arith, sum_one xs)

module _ {T : Traits} where
  -- The result of a call, where it has one.
  abbrev pub answer : PendingVotes T → Call T → Option VoteReceptionResult
  answer p (adds vote verifier) = some (add_vote p vote verifier).1
  answer p (sets_round round) = none
  answer p (removes_round round) = none

  abbrev pub answers : PendingVotes T → List (Call T) → List (Option VoteReceptionResult)
  answers p [] = []
  answers p (c ∷ cs) = answer p c ∷ answers (step p c) cs

  answer-SameVotes :
      (p q : PendingVotes T) (c : Call T)
      → IsLawfulCall c
      → IsKeyed p
      → IsKeyed q
      → SameVotes p q
      → answer p c ≡ answer q c
  answer-SameVotes p q (adds vote verifier) (lawful, positive) kp kq same =
      ap some (add_vote-result p q vote verifier lawful positive kp kq same)
  answer-SameVotes p q (sets_round round) lawful kp kq same = refl
  answer-SameVotes p q (removes_round round) lawful kp kq same = refl

  answers-SameVotes :
      (p q : PendingVotes T) (cs : List (Call T))
      → All IsLawfulCall cs
      → IsKeyed p
      → IsKeyed q
      → SameVotes p q
      → (answers p cs ≡ answers q cs) × SameVotes (run p cs) (run q cs)
  answers-SameVotes p q [] lawful kp kq same = (refl, same)
  answers-SameVotes p q (c ∷ cs) (lawful, lawfuls) kp kq same =
      let (rest, after) =
        answers-SameVotes (step p c) (step q c) cs lawfuls (step-IsKeyed p c kp)
          (step-IsKeyed q c kq) (step-SameVotes p q c same) in
      (λ i. answer-SameVotes p q c lawful kp kq same i ∷ rest i, after)

  vote_count_mono :
      (p q : PendingVotes T)
      → IsKeyed p
      → IsKeyed q
      → SameVotes p q
      → (round : ℕ) (block_id : T.Hash) → vote_count p round block_id ≤ vote_count q round block_id
  unfolding vote_count contains_key
  vote_count_mono p q kp kq same round block_id =
      let m = votes_at p (round, block_id) in
      let n = votes_at q (round, block_id) in
      let h =
        sum-keys_mono T.signature_eq (λ sig. 1) m n (kp (round, block_id)) (kq (round, block_id))
          (λ sig c. ground (arith, same.2 (round, block_id) sig, c)) in
      ground (arith, h, sum_one (keys m), sum_one (keys n), length-keys m, length-keys n)

  run-IsKeyed : (p : PendingVotes T) (cs : List (Call T)) → IsKeyed p → IsKeyed (run p cs)
  run-IsKeyed p [] keyed = keyed
  run-IsKeyed p (c ∷ cs) keyed = run-IsKeyed (step p c) cs (step-IsKeyed p c keyed)

  SameVotes-symm : (p q : PendingVotes T) → SameVotes p q → SameVotes q p
  SameVotes-symm p q (round, window, same) = (sym round, sym window, λ key sig. sym (same key sig))

  add_votes-kept :
      (p : PendingVotes T) (votes : List T.Vote) (verifier : Verifier T)
      → ((add_votes p votes verifier).current_round ≡ p.current_round)
        × ((add_votes p votes verifier).max_rounds ≡ p.max_rounds)
  add_votes-kept p [] verifier = (refl, refl)
  add_votes-kept p (vote ∷ votes) verifier =
      let (round, window) = add_votes-kept (add_vote p vote verifier).0 votes verifier in
      let (round', window') = add_vote-kept p vote verifier in (round ∙ round', window ∙ window')

  pub add_votes-SameVotes :
      (p : PendingVotes T) {vs ws : List T.Vote} (verifier : Verifier T)
      → Permᴰ vs ws
      → Pairwise (λ v w. same_place T v w ≡ false) vs
      → SameVotes (add_votes p vs verifier) (add_votes p ws verifier)
  add_votes-SameVotes p {vs} {ws} verifier perm apart =
      let (round, window) = add_votes-kept p vs verifier in
      let (round', window') = add_votes-kept p ws verifier in
      (
        round ∙ sym round',
        window ∙ sym window',
        λ key sig. ap (λ view. view key sig) (add_votes-Perm p verifier perm apart),
      )

  -- With a lawful verifier whose quorum is positive, from pending votes without a repeated
  -- signature for a block: votes of which no two have the same block and signature may be added in
  -- any order. Every later history of calls, whose verifiers are such ones, gets the same results
  -- and leads to the same round, window and recorded votes, with the same quorum check and number
  -- of votes for every block.
  pub arrival_unobserved :
      (p : PendingVotes T) {vs ws : List T.Vote} (verifier : Verifier T) (cs : List (Call T))
      → IsLawful verifier
      → 0 < verifier.quorum_voting_power
      → Permᴰ vs ws
      → Pairwise (λ v w. same_place T v w ≡ false) vs
      → IsKeyed p
      → All IsLawfulCall cs
      → (answers (add_votes p vs verifier) cs ≡ answers (add_votes p ws verifier) cs)
        × SameVotes (run (add_votes p vs verifier) cs) (run (add_votes p ws verifier) cs)
        × ((key : Key T)
            → check_quorum (run (add_votes p vs verifier) cs) key verifier
              ≡ check_quorum (run (add_votes p ws verifier) cs) key verifier)
        × ((round : ℕ) (block_id : T.Hash)
            → vote_count (run (add_votes p vs verifier) cs) round block_id
              ≡ vote_count (run (add_votes p ws verifier) cs) round block_id)
  arrival_unobserved p {vs} {ws} verifier cs lawful positive perm apart keyed lawfuls =
      let kv = add_votes-IsKeyed verifier p vs keyed in
      let kw = add_votes-IsKeyed verifier p ws keyed in
      let (equal, same) =
        answers-SameVotes (add_votes p vs verifier) (add_votes p ws verifier) cs lawfuls kv kw
          (add_votes-SameVotes p verifier perm apart) in
      let p' = run (add_votes p vs verifier) cs in
      let q' = run (add_votes p ws verifier) cs in
      let kv' = run-IsKeyed (add_votes p vs verifier) cs kv in
      let kw' = run-IsKeyed (add_votes p ws verifier) cs kw in
      (
        equal,
        same,
        λ key.
            check_quorum_same verifier lawful positive p' q' key (kv' key) (kw' key) (same.2 key),
        λ round block_id. omega (
          arith,
          vote_count_mono p' q' kv' kw' same round block_id,
          vote_count_mono q' p' kw' kv' (SameVotes-symm p' q' same) round block_id,
        ),
      )
