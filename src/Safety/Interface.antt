-- ===== src/Safety/Interface.antt =====
-- The trait `SafetyRules` of consensus-traits/src/safety.rs as an interface, with the laws that a
-- client relies on, and the two-chain rules as an implementation of it.
use aptosbft.Common.{ℕ, ◌≤◌, ◌≡◌, ◌↔◌, Option, Result, ok, max, arith}
use aptosbft.Traits.{Traits, Error}
use aptosbft.Timeout.{TwoChainTimeoutCertificate}
use aptosbft.Safety.Rules.{
  TwoChainSafetyRules, safe_to_vote, safe_to_timeout, observe_qc, record_vote, record_timeout,
  should_commit,
}
use aptosbft.Safety.Rules

-- `state().last_voted_round()` and `state().one_chain_round()` are fields of their own.
pub record SafetyRules (T : Traits) : Type 1 where
  pub Rules : Type 0
  pub TimeoutCert : Type 0
  pub safe_to_vote : Rules → T.Block → Option TimeoutCert → Result Error (Unit {0})
  pub safe_to_timeout : Rules → ℕ → ℕ → Option TimeoutCert → Result Error (Unit {0})
  pub observe_qc : Rules → T.QuorumCert → Rules × Result Error (Unit {0})
  pub observe_tc : Rules → TimeoutCert → Rules × Result Error (Unit {0})
  pub last_voted_round : Rules → ℕ
  pub one_chain_round : Rules → ℕ
  pub should_commit : Rules → T.Block → Option T.Hash
  pub record_vote : Rules → ℕ → Rules × Result Error (Unit {0})
  pub record_timeout : Rules → ℕ → Rules

-- The documented effects on the two rounds.
pub record IsSafe {T : Traits} (S : SafetyRules T) : Type 0 where
  pub record_vote_last :
      (r : S.Rules) (round : ℕ)
      → S.last_voted_round (S.record_vote r round).0 ≡ max (S.last_voted_round r) round
  pub record_vote_ok :
      (r : S.Rules) (round : ℕ)
      → ((S.record_vote r round).1 ≡ ok tt) ↔ (S.last_voted_round r ≤ round)
  pub observe_qc_chain :
      (r : S.Rules) (qc : T.QuorumCert)
      → S.one_chain_round (S.observe_qc r qc).0 ≡ max (S.one_chain_round r) (T.qc_round qc)
  pub observe_qc_last :
      (r : S.Rules) (qc : T.QuorumCert)
      → S.last_voted_round (S.observe_qc r qc).0 ≡ S.last_voted_round r
  pub record_timeout_last :
      (r : S.Rules) (round : ℕ)
      → S.last_voted_round (S.record_timeout r round) ≡ S.last_voted_round r
  pub record_timeout_chain :
      (r : S.Rules) (round : ℕ) → S.one_chain_round (S.record_timeout r round) ≡ S.one_chain_round r

abbrev pub two_chain : (T : Traits) → SafetyRules T
two_chain T = record {
  Rules = TwoChainSafetyRules;
  TimeoutCert = TwoChainTimeoutCertificate T;
  safe_to_vote = safe_to_vote T;
  safe_to_timeout = safe_to_timeout T;
  observe_qc = observe_qc T;
  observe_tc = Rules.observe_tc T;
  last_voted_round = λ r. r.state.last_voted_round;
  one_chain_round = λ r. r.state.one_chain_round;
  should_commit = should_commit T;
  record_vote = record_vote;
  record_timeout = record_timeout;
}

-- The two-chain rules meet the laws of the SafetyRules interface: a vote raises the last-voted
-- round to its round and is refused exactly below it, a certificate raises the one-chain round to
-- its round, and certificates and timeouts leave the other round as it is.
pub two_chain-IsSafe : (T : Traits) → IsSafe (two_chain T)
unfolding record_vote observe_qc record_timeout
two_chain-IsSafe T = record {
  record_vote_last = λ r round. ground arith;
  record_vote_ok = λ r round. (λ h. ground arith, λ h. ground arith);
  observe_qc_chain = λ r qc. ground arith;
  observe_qc_last = λ r qc. ground arith;
  record_timeout_last = λ r round. ground arith;
  record_timeout_chain = λ r round. ground arith;
}
