-- ===== src/Votes/Filing.antt =====
-- Where votes are recorded (consensus-core/src/votes/pending_votes.rs).
use aptosbft.Common.{ℕ, ◌≡◌, some, List, [], ◌∷◌, arith}
use aptosbft.Common.Map.{get}
use aptosbft.Traits.{Traits, Verifier}
use aptosbft.Votes.{PendingVotes, new, Key, key_of, add_vote, set_round, remove_round}
use aptosbft.Votes.Receive.{vote_at, vote_at-add_vote, vote_at-set_round, vote_at-remove_round}

module _ {T : Traits} where
  abbrev pub IsFiled : PendingVotes T → Type 0
  IsFiled p =
      (key : Key T) (sig : T.Signature) (vote : T.Vote)
      → vote_at p key sig ≡ some vote
      → (key_of T vote ≡ key) × (T.vote_signature vote ≡ sig)

  pub add_vote-IsFiled :
      (p : PendingVotes T) (vote : T.Vote) (verifier : Verifier T)
      → IsFiled p
      → IsFiled (add_vote p vote verifier).0
  add_vote-IsFiled p vote verifier f key sig w h =
      ground (arith, vote_at-add_vote p vote verifier key sig, f key sig w)

  pub set_round-IsFiled : (p : PendingVotes T) (round : ℕ) → IsFiled p → IsFiled (set_round p round)
  set_round-IsFiled p round f key sig w h =
      ground (arith, vote_at-set_round p round key sig, f key sig w)

  pub remove_round-IsFiled :
      (p : PendingVotes T) (round : ℕ) → IsFiled p → IsFiled (remove_round p round)
  remove_round-IsFiled p round f key sig w h =
      ground (arith, vote_at-remove_round p round key sig, f key sig w)

-- The calls that change the pending votes.
pub data Call (T : Traits) : Type 0 where
  adds : T.Vote → Verifier T → Call T
  sets_round : ℕ → Call T
  removes_round : ℕ → Call T

module _ {T : Traits} where
  abbrev pub step : PendingVotes T → Call T → PendingVotes T
  step p (adds vote verifier) = (add_vote p vote verifier).0
  step p (sets_round round) = set_round p round
  step p (removes_round round) = remove_round p round

  abbrev pub run : PendingVotes T → List (Call T) → PendingVotes T
  run p [] = p
  run p (c ∷ cs) = run (step p c) cs

  step-IsFiled : (p : PendingVotes T) (c : Call T) → IsFiled p → IsFiled (step p c)
  step-IsFiled p (adds vote verifier) = add_vote-IsFiled p vote verifier
  step-IsFiled p (sets_round round) = set_round-IsFiled p round
  step-IsFiled p (removes_round round) = remove_round-IsFiled p round

  -- Where every recorded vote stands under its own round, block and signature, it does so after
  -- every history of calls.
  pub run-IsFiled : (p : PendingVotes T) (cs : List (Call T)) → IsFiled p → IsFiled (run p cs)
  run-IsFiled p [] f = f
  run-IsFiled p (c ∷ cs) f = run-IsFiled (step p c) cs (step-IsFiled p c f)

-- No vote is recorded at the start.
pub new-IsFiled : (T : Traits) (max_rounds : ℕ) → IsFiled (new T max_rounds)
unfolding new get
new-IsFiled T max_rounds key sig vote h = cc
