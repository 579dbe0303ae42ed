-- ===== src/Safety/Voting.antt =====
-- The checks of consensus-core/src/safety_rules/two_chain.rs and the documented two-chain rules.
use aptosbft.Common.{ℕ, ◌+◌, ◌≤◌, ◌<◌, ◌≡◌, ◌↔◌, ◌⊎◌, Option, none, some, u64_max, ok, arith}
use aptosbft.Traits.{Traits}
use aptosbft.Timeout.{TwoChainTimeoutCertificate}
use aptosbft.Safety.Rules.{
  TwoChainSafetyRules, safe_to_vote_impl, safe_to_timeout_impl, safe_to_vote,
}

-- The rounds of a timeout certificate that the voting rule reads.
abbrev pub Rounds : Type 0
Rounds = Option (ℕ × ℕ)

abbrev pub round_of : Rounds → Option ℕ
round_of none = none
round_of (some (r, h)) = some r

abbrev pub hqc_of : Rounds → Option ℕ
hqc_of none = none
hqc_of (some (r, h)) = some h

-- The documented rule: the block follows its certificate, or it follows the timeout certificate
-- and its own certificate is no older than the highest one of the timeout.
abbrev pub VoteRule : ℕ → ℕ → Rounds → Type 0
VoteRule block qc none = block ≡ qc + 1
VoteRule block qc (some (r, h)) = (block ≡ qc + 1) ⊎ ((block ≡ r + 1) × (h ≤ qc))

abbrev pub InRange : Rounds → Type 0
InRange none = Unit {0}
InRange (some (r, h)) = r < u64_max

-- Where neither the certificate nor the timeout certificate has the greatest u64 as its round,
-- safe_to_vote_impl accepts exactly what the documented two-chain voting rule allows.
pub safe_to_vote_impl_iff :
    (block qc : ℕ) (tc : Rounds)
    → qc < u64_max
    → InRange tc
    → (safe_to_vote_impl block qc (round_of tc) (hqc_of tc) ≡ ok tt) ↔ VoteRule block qc tc
unfolding safe_to_vote_impl
safe_to_vote_impl_iff block qc none b t = (λ h. ground arith, λ h. ground arith)
safe_to_vote_impl_iff block qc (some (r, x)) b t = (λ h. ground arith, λ h. ground arith)

abbrev pub TimeoutRule : ℕ → ℕ → Option ℕ → ℕ → Type 0
TimeoutRule round qc none one_chain = (round ≡ qc + 1) × (one_chain ≤ qc)
TimeoutRule round qc (some r) one_chain = ((round ≡ qc + 1) ⊎ (round ≡ r + 1)) × (one_chain ≤ qc)

abbrev pub TcInRange : Option ℕ → Type 0
TcInRange none = Unit {0}
TcInRange (some r) = r < u64_max

-- Where neither the certificate nor the timeout certificate has the greatest u64 as its round,
-- safe_to_timeout_impl accepts exactly what the documented two-chain timeout rule allows.
pub safe_to_timeout_impl_iff :
    (s : TwoChainSafetyRules) (round qc : ℕ) (tc : Option ℕ)
    → qc < u64_max
    → TcInRange tc
    → (safe_to_timeout_impl s round qc tc ≡ ok tt) ↔ TimeoutRule round qc tc s.state.one_chain_round
unfolding safe_to_timeout_impl
safe_to_timeout_impl_iff s round qc none b t = (λ h. ground arith, λ h. ground arith)
safe_to_timeout_impl_iff s round qc (some r) b t = (λ h. ground arith, λ h. ground arith)

module _ (T : Traits) where
  abbrev pub CertInRange : Option (TwoChainTimeoutCertificate T) → Type 0
  CertInRange none = Unit {0}
  CertInRange (some tc) = tc.round < u64_max

  -- For a u64 round and a timeout certificate of a round below the greatest u64, if any,
  -- safe_to_vote accepts exactly the proposals of a positive round, whatever the state of the rules
  -- is.
  pub safe_to_vote_iff :
      (r : TwoChainSafetyRules) (proposal : T.Block) (tc : Option (TwoChainTimeoutCertificate T))
      → T.block_round proposal ≤ u64_max
      → CertInRange tc
      → (safe_to_vote T r proposal tc ≡ ok tt) ↔ (0 < T.block_round proposal)
  unfolding safe_to_vote
  safe_to_vote_iff r proposal none b t = (λ h. ground arith, λ h. ground arith)
  safe_to_vote_iff r proposal (some tc) b t = (λ h. ground arith, λ h. ground arith)
