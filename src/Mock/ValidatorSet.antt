-- ===== src/Mock/ValidatorSet.antt =====
-- The mock validator set: consensus-core/src/testing/mock_validator.rs.
pub mod Laws
use aptosbft.Common.{
  ℕ, ◌+◌, ◌*◌, ◌/◌, Bool, true, false, ◌&&◌, ltb, if◌then◌else◌, Option, none, some, List, [], ◌∷◌,
  Result, ok, err, ℕ_discrete, length,
}
use aptosbft.Common.Map.{Map, get, contains_key, insert, keys}
use aptosbft.Traits.{Verifier, VerifyError, unknown_author, too_little_voting_power, verification}
use aptosbft.Mock.{mock, MockBlock, MockVote, Error}
use aptosbft.Traits.{Error}

pub record MockValidator : Type 0 where
  pub id : ℕ
  pub voting_power : ℕ

pub record MockValidatorSet : Type 0 where
  pub validators : Map ℕ MockValidator
  pub total_voting_power : ℕ
  pub quorum_threshold : ℕ

-- The loop of `MockValidatorSet::new`.
unfoldable pub insert_all : Map ℕ MockValidator → List MockValidator → Map ℕ MockValidator
insert_all m [] = m
insert_all m (v ∷ vs) = insert_all (insert ℕ_discrete v.id v m) vs

add_all : ℕ → List MockValidator → ℕ
add_all total [] = total
add_all total (v ∷ vs) = add_all (total + v.voting_power) vs

unfoldable pub new : List MockValidator → MockValidatorSet
unfolding insert_all add_all
new validators =
    let total_power = add_all 0 validators in
    record {
      validators = insert_all [] validators;
      total_voting_power = total_power;
      quorum_threshold = total_power * 2 / 3 + 1;
    }

module _ (s : MockValidatorSet) where
  abbrev pub len : ℕ
  len = length s.validators

  abbrev pub is_empty : Bool
  is_empty = elim s.validators [ [] ↦ true | v ∷ vs ↦ false ]

  unfoldable pub get_validator : ℕ → Option MockValidator
  get_validator id = get ℕ_discrete id s.validators

  abbrev pub validator_ids : List ℕ
  validator_ids = keys s.validators

  -- No modelled code calls it: votes are checked by `MockVote::verify`.
  unfoldable pub verify_vote : MockVote → Result Error (Unit {0})
  verify_vote v =
      if contains_key ℕ_discrete v.author s.validators
      then ok tt
      else err (verification unknown_author)

  abbrev pub verify_block : MockBlock → Result Error (Unit {0})
  verify_block block = ok tt

  unfoldable pub get_voting_power : ℕ → Option ℕ
  get_voting_power validator_id = elim (get ℕ_discrete validator_id s.validators) [
    | none ↦ none
    | some v ↦ some v.voting_power
  ]

  -- The loop of `check_voting_power`.
  abbrev pub add_power : Option ℕ → ℕ → ℕ
  add_power none power = power
  add_power (some vp) power = power + vp

  abbrev pub power_of_signers : ℕ → List ℕ → ℕ
  power_of_signers power [] = power
  power_of_signers power (signer ∷ signers) =
      power_of_signers (add_power (get_voting_power signer) power) signers

  unfoldable pub check_voting_power : List ℕ → Bool → Result VerifyError (Unit {0})
  check_voting_power signers check_quorum =
      let power = power_of_signers 0 signers in
      if check_quorum && ltb power s.quorum_threshold
      then err (too_little_voting_power power s.quorum_threshold)
      else ok tt

  -- `MockVote::verify` accepts every vote; `aggregate_signatures` never fails.
  abbrev pub verifier : Verifier mock
  verifier = record {
    verify = λ vote. ok tt;
    get_voting_power = get_voting_power;
    total_voting_power = s.total_voting_power;
    quorum_voting_power = s.quorum_threshold;
    check_voting_power = check_voting_power;
    aggregate_signatures = λ signatures. ok tt;
  }
