-- ===== src/Tests/Reputation.antt =====
-- The theorems on the reputation tracker at test data.
use aptosbft.Common.{ℕ, ◌+◌, ◌-◌, ◌≤◌, ◌≡◌, min, max, List, [], ◌∷◌, arith, ℕ_discrete}
use aptosbft.Proposer.Reputation.{Scale, IsLawful, new, get_reputation}
use aptosbft.Proposer.Reputation.Scores.{
  Call, succeeds, fails, resets, run, InUnit, get_reputation-run, get_reputation-InUnit,
}

-- Hundredths stand for the floating point numbers, with 1000 for 0.0.
abbrev hundredths : Scale
hundredths = record {
  F64 = ℕ;
  plus = λ a b. a + b - 1000;
  clamp = λ x. max 1000 (min x 1100);
  hundredth = 1001;
  minus_tenth = 990;
  zero_score = 1000;
  one_score = 1100;
  Le = λ a b. a ≤ b;
  IsNan = λ x. x ≡ 0;
}

hundredths-IsLawful : IsLawful hundredths
hundredths-IsLawful = record {
  clamp-range = λ x n. ground arith;
  plus_hundredth = λ x l u. ground arith;
  plus_minus_tenth = λ x l u. ground arith;
}

abbrev calls : List (Call ℕ)
calls = succeeds 7 ∷ fails 8 ∷ fails 7 ∷ resets ∷ succeeds 8 ∷ []

get_reputation-run_example :
    get_reputation ℕ_discrete
      (run ℕ_discrete (new {S = hundredths} ℕ_discrete (7 ∷ 8 ∷ []) 1050) calls)
      8
    ≡ 1051
unfolding ℕ_discrete
get_reputation-run_example = get_reputation-run hundredths ℕ_discrete (7 ∷ 8 ∷ []) 1050 8 calls

get_reputation-InUnit_example : InUnit hundredths (
    get_reputation ℕ_discrete
      (run ℕ_discrete (new {S = hundredths} ℕ_discrete (7 ∷ 8 ∷ []) 1050) calls)
      7)
get_reputation-InUnit_example =
    get_reputation-InUnit hundredths ℕ_discrete (7 ∷ 8 ∷ []) 1050 7 calls hundredths-IsLawful
      (omega arith, omega arith)
