-- ===== src/Traits/Errors.antt =====
-- The errors of the protocol: `VerifyError` of consensus-traits/src/core.rs, and a constructor for
-- each message that the modelled code passes to `Error::msg`, with the values that it prints.
use Prim.Native.String.{String}
use aptosbft.Common.{ℕ, Option}

pub data VerifyError : Type 0 where
  unknown_author : VerifyError
  too_little_voting_power : ℕ → ℕ → VerifyError
  invalid_signature : VerifyError
  invalid_aggregated_signature : VerifyError

pub data Error : Type 0 where
  -- an error of an implementation of the traits
  external : String → Error
  verification : VerifyError → Error
  round_overflow : ℕ → Error
  not_safe_to_vote : ℕ → ℕ → Option ℕ → Option ℕ → Error
  not_safe_to_timeout : ℕ → ℕ → Option ℕ → ℕ → Error
  timeout_refused : Error → Error
  cannot_record_vote : ℕ → ℕ → Error
  cannot_vote : ℕ → ℕ → Error
  invalid_timeout : ℕ → ℕ → Error
  invalid_tc_hqc : ℕ → ℕ → Error
  invalid_tc_highest_tc : ℕ → ℕ → Error
