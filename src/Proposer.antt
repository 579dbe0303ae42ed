-- ===== src/Proposer.antt =====
-- Proposer election: consensus-core/src/liveness/proposer.rs and the trait of
-- consensus-traits/src/proposer.rs. The elections are here; the reputation is a module of its own.
pub mod RoundRobin
pub mod Weighted
pub mod Reputation
use aptosbft.Common.{
  ℕ, ◌+◌, ◌-◌, ◌%◌, Bool, ltb, ◌==◌, if◌then◌else◌, ite, Option, none, some, List, [], ◌∷◌, Result,
  ok, panic, length, get_elem?, sum,
}

pub record ProposerElectionConfig : Type 0 where
  pub num_validators : ℕ
  pub initial_round : ℕ

-- `ProposerElectionConfig::default`.
abbrev pub default_config : ProposerElectionConfig
default_config = record { num_validators = 4; initial_round = 1 }

pub record RoundRobinProposer {ℓ} (A : Type ℓ) : Type ℓ where
  pub validators : List A
  pub config : ProposerElectionConfig

pub record WeightedProposer {ℓ} (A : Type ℓ) : Type ℓ where
  pub validators : List (A × ℕ)
  pub total_voting_power : ℕ  -- u128
  pub config : ProposerElectionConfig

module _ {ℓ} {A : Type ℓ} where
  unfoldable pub new_round_robin : List A → ProposerElectionConfig → RoundRobinProposer A
  new_round_robin validators config = record { validators = validators; config = config }

  abbrev pub num_validators : RoundRobinProposer A → ℕ
  num_validators p = length p.validators

  abbrev pub get_validator : RoundRobinProposer A → ℕ → Option A
  get_validator p index = get_elem? p.validators index

  unfoldable pub round_robin : RoundRobinProposer A → ℕ → Option A
  round_robin p round =
      if length p.validators == 0
      then none
      else if ltb round p.config.initial_round
      then none
      else get_elem? p.validators ((round - p.config.initial_round) % length p.validators)

  unfoldable pub new_weighted : List (A × ℕ) → ProposerElectionConfig → WeightedProposer A
  new_weighted validators config = record {
    validators = validators;
    total_voting_power = sum (λ v. v.1) validators;
    config = config;
  }

  -- The fallback of the loop: `self.validators.last()`.
  abbrev pub last : List (A × ℕ) → Option A
  last [] = none
  last ((v, w) ∷ []) = some v
  last (e ∷ e' ∷ vs) = last (e' ∷ vs)

  -- The loop over the validators, with the fallback for its end.
  unfoldable pub select : ℕ → ℕ → Option A → List (A × ℕ) → Option A
  select target cumulative fallback [] = fallback
  select target cumulative fallback ((validator, weight) ∷ vs) =
      let rest = select target (cumulative + weight) fallback vs in
      if ltb target (cumulative + weight) then some validator else rest

  -- The remainder by a total of 0 panics.
  unfoldable pub select_weighted_proposer {κ} :
      {E : Type κ} → WeightedProposer A → ℕ → Result E (Option A)
  unfolding select
  select_weighted_proposer p round =
      if length p.validators == 0
      then ok none
      else if p.total_voting_power == 0
      then panic
      else ok (select (round % p.total_voting_power) 0 (last p.validators) p.validators)

  unfoldable pub weighted {κ} : {E : Type κ} → WeightedProposer A → ℕ → Result E (Option A)
  unfolding select_weighted_proposer
  weighted p round =
      if ltb round p.config.initial_round then ok none else select_weighted_proposer p round
