-- ===== src/RoundManager/Invariant.antt =====
-- The pending votes of a round manager (consensus-core/src/round_manager/mod.rs) between two calls.
use aptosbft.Common.{ℕ, ◌+◌, ◌≤◌, ◌≡◌, refl, some, List, [], ◌∷◌, arith, ◌∙◌, u64}
use aptosbft.Traits.{Traits, Verifier}
use aptosbft.Safety.Interface.{SafetyRules}
use aptosbft.Votes.{PendingVotes, Key, key_of, add_vote, set_round, cleanup_old_votes, remove_round}
use aptosbft.Votes
use aptosbft.Votes.Receive.{vote_at, vote_at-add_vote, vote_at-set_round, vote_at-remove_round}
use aptosbft.Votes.Filing.{
  IsFiled, add_vote-IsFiled, set_round-IsFiled, remove_round-IsFiled, new-IsFiled,
}
use aptosbft.Round
use aptosbft.RoundManager.{
  RoundManager, RoundManagerConfig, new, try_vote_for_proposal, process_proposal, process_timeout,
  start_round, install_certificate,
}
use aptosbft.RoundManager.Cases.{process_vote_cases}
use aptosbft.RoundManager.History.{
  Call, step, run, votes_for, receives_proposal, receives_vote, times_out, starts_round,
}
use aptosbft.Common.Map.{get}

-- The pending votes of a manager in a round, with a window of buffered rounds.
pub record IsPending {T : Traits} (round window : ℕ) (p : PendingVotes T) : Type 0 where
  pub same_round : p.current_round ≡ round
  pub same_window : p.max_rounds ≡ window
  pub filed : IsFiled p
  pub in_window :
      (key : Key T) (sig : T.Signature) (vote : T.Vote)
      → vote_at p key sig ≡ some vote
      → round ≤ key.0 + window

module _ {T : Traits} where
  add_vote-fields :
      (p : PendingVotes T) (vote : T.Vote) (verifier : Verifier T)
      → ((add_vote p vote verifier).0.current_round ≡ p.current_round)
        × ((add_vote p vote verifier).0.max_rounds ≡ p.max_rounds)
  unfolding add_vote
  add_vote-fields p vote verifier = ground arith

  add_vote-IsPending :
      {round window : ℕ} (p : PendingVotes T) (vote : T.Vote) (verifier : Verifier T)
      → IsPending round window p
      → IsPending round window (add_vote p vote verifier).0
  add_vote-IsPending p vote verifier h = record {
    same_round = (add_vote-fields p vote verifier).0 ∙ h.same_round;
    same_window = (add_vote-fields p vote verifier).1 ∙ h.same_window;
    filed = add_vote-IsFiled p vote verifier h.filed;
    in_window = λ key sig w there.
        ground
          (arith, vote_at-add_vote p vote verifier key sig, h.in_window key sig w, h.same_round);
  }

  remove_round-fields :
      (p : PendingVotes T) (r : ℕ)
      → ((remove_round p r).current_round ≡ p.current_round)
        × ((remove_round p r).max_rounds ≡ p.max_rounds)
  unfolding remove_round
  remove_round-fields p r = (refl, refl)

  remove_round-IsPending :
      {round window : ℕ} (p : PendingVotes T) (r : ℕ)
      → IsPending round window p
      → IsPending round window (remove_round p r)
  remove_round-IsPending p r h = record {
    same_round = (remove_round-fields p r).0 ∙ h.same_round;
    same_window = (remove_round-fields p r).1 ∙ h.same_window;
    filed = remove_round-IsFiled p r h.filed;
    in_window =
        λ key sig w there. ground (arith, vote_at-remove_round p r key sig, h.in_window key sig w);
  }

  set_round-fields :
      (p : PendingVotes T) (r : ℕ)
      → ((set_round p r).current_round ≡ r) × ((set_round p r).max_rounds ≡ p.max_rounds)
  unfolding set_round
  set_round-fields p r = (refl, refl)

  set_round-IsPending :
      {round window : ℕ} (p : PendingVotes T) (r : ℕ)
      → IsPending round window p
      → IsPending r window (set_round p r)
  set_round-IsPending p r h = record {
    same_round = (set_round-fields p r).0;
    same_window = (set_round-fields p r).1 ∙ h.same_window;
    filed = set_round-IsFiled p r h.filed;
    in_window = λ key sig w there. ground (arith, vote_at-set_round p r key sig, h.same_window);
  }

module _ {T : Traits} {S : SafetyRules T} where
  -- The pending votes are those of the manager's round and window.
  abbrev pub InSync : RoundManager S → Type 0
  InSync m = IsPending m.round_state.round m.config.max_buffered_rounds m.pending_votes

  install-InSync :
      (m : RoundManager S) (round : ℕ) (qc : T.QuorumCert)
      → InSync m
      → InSync (install_certificate m round qc).0
  unfolding install_certificate
  install-InSync m round qc h = ground (arith, remove_round-IsPending m.pending_votes round h)

  step-InSync : (m : RoundManager S) (c : Call S) → InSync m → InSync (step m c)
  unfolding try_vote_for_proposal process_proposal process_timeout start_round Round.set_round
  step-InSync m (votes_for proposal tc) h = ground arith
  step-InSync m (receives_proposal proposal) h = ground arith
  step-InSync m (receives_vote vote verifier) h =
      let added = add_vote-IsPending m.pending_votes vote verifier h in
      process_vote_cases InSync m vote verifier h added
        λ qc _. install-InSync _ (T.vote_round vote) qc added
  step-InSync m (times_out reason) h =
      ground (arith, set_round-IsPending m.pending_votes (u64 (m.round_state.round + 1)) h)
  step-InSync m (starts_round round) h = set_round-IsPending m.pending_votes round h

  -- Every history of calls keeps pending votes that are in step with the round in step: they have
  -- its round and window, each vote stands under its own round, block and signature, and none is
  -- older than the window.
  pub run-InSync : (m : RoundManager S) (cs : List (Call S)) → InSync m → InSync (run m cs)
  run-InSync m [] h = h
  run-InSync m (c ∷ cs) h = run-InSync (step m c) cs (step-InSync m c h)

-- A new manager is in step.
pub new-InSync :
    {T : Traits} (S : SafetyRules T) (config : RoundManagerConfig) (rules : S.Rules)
    → InSync (new {S = S} config rules)
unfolding new Round.new Votes.new get
new-InSync {T} S config rules = record {
  same_round = refl;
  same_window = refl;
  filed = new-IsFiled T config.max_buffered_rounds;
  in_window = λ key sig vote there. cc;
}
