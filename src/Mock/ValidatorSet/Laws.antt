-- ===== src/Mock/ValidatorSet/Laws.antt =====
-- The mock set (consensus-core/src/testing/mock_validator.rs) and the verifier's contract; quorums.
use aptosbft.Common.{
  ℕ, ◌+◌, ◌*◌, ◌≤◌, ◌<◌, ◌≡◌, Bool, ◌&&◌, if◌then◌else◌, List, [], ◌∷◌, arith, sum,
}
use aptosbft.Traits.{power_of, IsLawful}
use aptosbft.Mock.ValidatorSet.{
  add_power, MockValidator, MockValidatorSet, new, verifier, power_of_signers, check_voting_power,
  get_voting_power, add_all,
}

module _ (s : MockValidatorSet) where
  power_of_signers-sum :
      (power : ℕ) (ids : List ℕ)
      → power_of_signers s power ids ≡ power + sum (power_of (verifier s)) ids
  power_of_signers-sum power [] = omega arith
  power_of_signers-sum power (id ∷ ids) =
      ground (arith, power_of_signers-sum (add_power s (get_voting_power s id) power) ids)

  -- The mock validator set accepts signers for a quorum exactly if their joint power meets its
  -- threshold.
  pub verifier-IsLawful : IsLawful (verifier s)
  unfolding check_voting_power
  verifier-IsLawful = record {
    check_iff = λ ids. (
      λ h. ground (arith, power_of_signers-sum 0 ids),
      λ h. ground (arith, power_of_signers-sum 0 ids),
    );
  }

-- The joint power of the validators of a set of signers.
abbrev pub power_in : (ℕ → Bool) → List MockValidator → ℕ
power_in among = sum λ v. if among v.id then v.voting_power else 0

add_all-sum :
    (total : ℕ) (vs : List MockValidator) → add_all total vs ≡ total + sum (λ v. v.voting_power) vs
unfolding add_all
add_all-sum total [] = omega arith
add_all-sum total (v ∷ vs) = omega (arith, add_all-sum (total + v.voting_power) vs)

overlap :
    (a b : ℕ → Bool) (vs : List MockValidator)
    → power_in a vs + power_in b vs
      ≤ sum (λ v. v.voting_power) vs + power_in (λ id. a id && b id) vs
overlap a b [] = omega arith
overlap a b (v ∷ vs) = ground (arith, overlap a b vs)

-- Two sets of signers that both reach the quorum threshold share more than a third of the total
-- voting power.
pub quorum_intersection :
    (vs : List MockValidator) (a b : ℕ → Bool)
    → (new vs).quorum_threshold ≤ power_in a vs
    → (new vs).quorum_threshold ≤ power_in b vs
    → (new vs).total_voting_power < 3 * power_in (λ id. a id && b id) vs
unfolding new
quorum_intersection vs a b ha hb = omega (arith, overlap a b vs, add_all-sum 0 vs)
