-- ===== src/Timeout/Laws.antt =====
-- Verified timeout certificates (consensus-core/src/timeout/two_chain.rs).
use aptosbft.Common.{◌+◌, ◌<◌, ◌≡◌, ◌↔◌, true, u64_size, ok, arith}
use aptosbft.Traits.{Traits}
use aptosbft.Timeout.{TwoChainTimeoutCertificate, verify, allows_advance, effective_hqc_round}

module _ {T : Traits} (c : TwoChainTimeoutCertificate T) where
  -- A certificate verifies exactly if its timeout and both of its rounds lie below what they
  -- certify.
  pub verify_iff : (verify c ≡ ok tt) ↔ (
      (c.timeout.hqc_round < c.timeout.round)
      × (c.hqc_round < c.round)
      × (c.highest_tc_round < c.round))
  unfolding verify
  verify_iff = (λ h. ground arith, λ h. ground arith)

  -- A verified timeout certificate with a u64 round allows an advance exactly if its round directly
  -- follows the effective round, and is always above that round.
  pub allows_advance_iff :
      c.round < u64_size
      → verify c ≡ ok tt
      → ((allows_advance c ≡ true) ↔ (c.round ≡ effective_hqc_round c + 1))
        × (effective_hqc_round c < c.round)
  unfolding verify allows_advance effective_hqc_round
  allows_advance_iff b v = ((λ h. ground arith, λ h. ground arith), ground arith)
