-- ===== src/Tests/Rules.antt =====
-- The theorems on certificates, the safety rules and the recovery at test data.
use aptosbft.Common.{
  Ascends, ◌+◌, ◌≤◌, ◌<◌, ◌≡◌, ◌↔◌, refl, Option, none, some, List, [], ◌∷◌, ok, u64, arith, leb,
}
use aptosbft.Mock.{mock}
use aptosbft.Mock.ValidatorSet.{new as new_set}
use aptosbft.Timeout.{TwoChainTimeoutCertificate}
use aptosbft.Safety.State.{SafetyStateData}
use aptosbft.Safety.Rules.{
  new, with_state, safe_to_vote, safe_to_vote_impl, safe_to_timeout_impl, observe_qc, should_commit,
  record_vote, record_timeout, safe_to_timeout, next_round,
}
use aptosbft.Safety.Voting.{
  safe_to_vote_impl_iff, safe_to_timeout_impl_iff, safe_to_vote_iff, VoteRule, TimeoutRule,
}
use aptosbft.Safety.History.{Input, certified, voted, timed_out, run, run-highest}
use aptosbft.Safety.Lock.{timeout_keeps_lock}
use aptosbft.Safety.Commit.{commits_ordered}
use aptosbft.Safety.Interface.{IsSafe, two_chain, two_chain-IsSafe}
use aptosbft.Safety.Recovery.Crash.{IsAtomic, Event, told, votes, persists, restarts, votes_sent}
use aptosbft.Safety.Recovery.Crash.Lock.{live-timeout}
use aptosbft.Safety.Recovery.Crash.Votes.{votes_sent-Ascends}
use aptosbft.Safety.Recovery.{
  recover, SafetyStorage, IsDurable, load_safety_rules, persist_safety_state, validate_safety_state,
}
use aptosbft.Safety.Recovery.Laws.{load-persist, load-run_iff, Valid}
use aptosbft.Tests.{block, certificate, validators}

-- A certificate of round 5 after one of round 4.
abbrev tc : TwoChainTimeoutCertificate mock
tc = record {
  epoch = 0;
  round = 5;
  hqc_round = 4;
  highest_tc_round = 3;
  timeout = record { epoch = 0; round = 5; hqc_round = 4 };
  aggregated_signature = 0;
}

safe_to_vote_impl_iff_example :
    (safe_to_vote_impl 6 3 (some 5) (some 3) ≡ ok tt) ↔ VoteRule 6 3 (some (5, 3))
safe_to_vote_impl_iff_example = safe_to_vote_impl_iff 6 3 (some (5, 3)) (omega arith) (omega arith)

safe_to_timeout_impl_iff_example :
    (safe_to_timeout_impl (new 0) 6 3 (some 5) ≡ ok tt)
    ↔ TimeoutRule 6 3 (some 5) (new 0).state.one_chain_round
safe_to_timeout_impl_iff_example =
    safe_to_timeout_impl_iff (new 0) 6 3 (some 5) (omega arith) (omega arith)

safe_to_vote_iff_example : (safe_to_vote mock (new 0) (block 9) (some tc) ≡ ok tt) ↔ (0 < 9)
safe_to_vote_iff_example =
    safe_to_vote_iff mock (new 0) (block 9) (some tc) (omega arith) (omega arith)

-- A certificate of round 1, a vote and a timeout of round 2.
abbrev inputs : List (Input mock)
inputs = certified (certificate 1) ∷ voted 2 ∷ timed_out 2 ∷ []

run-highest_example :
    ((run mock (new 0) inputs).state.one_chain_round ≡ 1)
    × ((run mock (new 0) inputs).state.last_voted_round ≡ 2)
    × ((run mock (new 0) inputs).state.highest_timeout_round ≡ 2)
    × ((run mock (new 0) inputs).state.epoch ≡ 0)
unfolding new
run-highest_example = run-highest mock (new 0) inputs

commits_ordered_example : 1 ≤ 2
unfolding new should_commit observe_qc record_vote record_timeout
commits_ordered_example =
    commits_ordered mock (new 0) inputs (block 1) (block 2) {id = 9} {id' = 9} refl refl

two_chain-IsSafe_example : IsSafe (two_chain mock)
two_chain-IsSafe_example = two_chain-IsSafe mock

-- A storage in memory.
abbrev memory : SafetyStorage
memory = record {
  Store = Option SafetyStateData;
  save_safety_state = λ store s. (some s, ok tt);
  get_safety_state = λ store. ok store;
}

memory-IsDurable : IsDurable memory
memory-IsDurable = record { get-save = λ store s saved. refl }

load-persist_example :
    (load_safety_rules memory (persist_safety_state memory none (new 0).state).0 0
      ≡ ok (with_state (new 0).state))
    ↔ Valid (new 0).state
unfolding persist_safety_state
load-persist_example = load-persist memory memory-IsDurable none (new 0).state 0 refl

load-run_iff_example :
    let s = (run mock (new 0) inputs).state in
    (load_safety_rules memory (persist_safety_state memory none s).0 0 ≡ ok (with_state s)) ↔ (
      (s.one_chain_round ≡ s.preferred_round)
      × (s.preferred_round ≤ u64 (s.last_voted_round + 100)))
unfolding persist_safety_state
load-run_iff_example = load-run_iff memory memory-IsDurable mock none 0 inputs (omega arith) refl

-- The validators 0 to 2 observed the certificate of round 4, the validators 1 to 3 signed the
-- timeout of round 5, and the validator 3 is faulty.
timeout_keeps_lock_example : (4 ≤ 4) × (4 ≤ 4)
unfolding new new_set safe_to_timeout safe_to_timeout_impl observe_qc next_round safe_to_vote_impl
    record_vote
timeout_keeps_lock_example =
    timeout_keeps_lock mock validators (λ id. leb 3 id) (λ id. leb id 2) (λ id. leb 1 id)
      (λ id. new 0) (λ id. voted 5 ∷ []) (certificate 4) tc (λ id. 4) (λ id. none) 6 4 (omega arith)
      (omega arith) (omega arith) (λ id s t f. (omega arith, refl)) (omega arith) refl

memory-IsAtomic : IsAtomic memory
memory-IsAtomic = record { get-failed = λ store s failed. ground arith }

-- A vote in round 2, a timeout, a crash, and votes in the rounds 1 and 3, of which the first is
-- refused.
abbrev life : List (Event mock)
life = restarts 0 ∷ votes 2 ∷ told (timed_out 2) ∷ restarts 0 ∷ votes 1 ∷ votes 3 ∷ persists ∷ []

votes_sent-Ascends_example :
    Ascends 0 (votes_sent {S = memory} (record { store = none; rules = none }) life)
votes_sent-Ascends_example =
    votes_sent-Ascends memory mock memory-IsDurable memory-IsAtomic
      (record { store = none; rules = none }) life

votes_sent-life : votes_sent {S = memory} (record { store = none; rules = none }) life ≡ 2 ∷ 3 ∷ []
unfolding new record_vote record_timeout persist_safety_state load_safety_rules recover with_state
    validate_safety_state
votes_sent-life = refl

-- A certificate of round 1 is persisted; after a crash, a vote in round 2 and another crash the
-- round 2 may time out with it.
live-timeout_example : 1 ≤ 1
unfolding new observe_qc persist_safety_state load_safety_rules recover validate_safety_state
    with_state record_vote safe_to_timeout safe_to_timeout_impl next_round
live-timeout_example =
    live-timeout memory mock memory-IsDurable memory-IsAtomic none (new 0) (certificate 1)
      (restarts 0 ∷ votes 2 ∷ restarts 0 ∷ [])
      (with_state (record {
        epoch = 0;
        last_voted_round = 2;
        preferred_round = 1;
        one_chain_round = 1;
        highest_timeout_round = 0;
      }))
      2 1 none refl refl refl
