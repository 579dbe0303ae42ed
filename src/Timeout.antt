-- ===== src/Timeout.antt =====
-- Two-chain timeouts and their certificates: consensus-core/src/timeout/two_chain.rs.
pub mod Laws
use aptosbft.Common.{
  ℕ, ◌+◌, max, Bool, ◌||◌, leb, ◌==◌, u64, if◌then◌else◌, Result, ok, err, ◌>>◌, ensure, not,
}
use aptosbft.Traits.{Traits, Error, invalid_timeout, invalid_tc_hqc, invalid_tc_highest_tc}

pub record TwoChainTimeout : Type 0 where
  pub epoch : ℕ
  pub round : ℕ
  pub hqc_round : ℕ

unfoldable pub default_timeout : TwoChainTimeout
default_timeout = record { epoch = 0; round = 0; hqc_round = 0 }

abbrev pub new_timeout : ℕ → ℕ → ℕ → TwoChainTimeout
new_timeout epoch round hqc_round = record { epoch = epoch; round = round; hqc_round = hqc_round }

unfoldable pub verify_timeout : TwoChainTimeout → Result Error (Unit {0})
verify_timeout t =
    if leb t.round t.hqc_round then err (invalid_timeout t.hqc_round t.round) else ok tt

pub record TwoChainTimeoutCertificate (T : Traits) : Type 0 where
  pub epoch : ℕ
  pub round : ℕ
  pub hqc_round : ℕ
  pub highest_tc_round : ℕ
  pub timeout : TwoChainTimeout
  pub aggregated_signature : T.BlockSignature

module _ {T : Traits} where
  abbrev pub new_certificate :
      ℕ → ℕ → ℕ → ℕ → TwoChainTimeout → T.BlockSignature → TwoChainTimeoutCertificate T
  new_certificate epoch round hqc_round highest_tc_round timeout aggregated_signature = record {
    epoch = epoch;
    round = round;
    hqc_round = hqc_round;
    highest_tc_round = highest_tc_round;
    timeout = timeout;
    aggregated_signature = aggregated_signature;
  }

  unfoldable pub verify : TwoChainTimeoutCertificate T → Result Error (Unit {0})
  unfolding verify_timeout
  verify c = do
    verify_timeout c.timeout
    ensure (not (leb c.round c.hqc_round)) (invalid_tc_hqc c.hqc_round c.round)
    ensure (not (leb c.round c.highest_tc_round)) (invalid_tc_highest_tc c.highest_tc_round c.round)

  -- `hqc_round + 1` and `highest_tc_round + 1` wrap at the greatest round.
  unfoldable pub allows_advance : TwoChainTimeoutCertificate T → Bool
  allows_advance c = c.round == u64 (c.hqc_round + 1) || c.round == u64 (c.highest_tc_round + 1)

  unfoldable pub effective_hqc_round : TwoChainTimeoutCertificate T → ℕ
  effective_hqc_round c = max c.hqc_round c.highest_tc_round
