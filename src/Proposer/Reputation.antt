-- ===== src/Proposer/Reputation.antt =====
-- The reputation tracker and the election that holds one: consensus-core/src/liveness/proposer.rs.
-- The floating point numbers are a parameter.
pub mod Scores
use aptosbft.Common.{ℕ, ◌≡◌, Option, none, some, List, [], ◌∷◌, map, Bool, false}
use aptosbft.Common.Map.{Map, get, insert}

-- `f64`: the operations and constants that the tracker uses, and its order.
pub record Scale : Type 1 where
  pub F64 : Type 0
  pub plus : F64 → F64 → F64
  -- `x.clamp(0.0, 1.0)`
  pub clamp : F64 → F64
  pub hundredth : F64
  pub minus_tenth : F64
  pub zero_score : F64
  pub one_score : F64
  pub Le : F64 → F64 → Type 0
  pub IsNan : F64 → Type 0

-- What is documented: a clamped number that is no NaN stands between the bounds, and the sum of a
-- number between them and a constant is no NaN.
pub record IsLawful (S : Scale) : Type 0 where
  pub clamp-range :
      (x : S.F64) → ¬ S.IsNan x → S.Le S.zero_score (S.clamp x) × S.Le (S.clamp x) S.one_score
  pub plus_hundredth :
      (x : S.F64) → S.Le S.zero_score x → S.Le x S.one_score → ¬ S.IsNan (S.plus x S.hundredth)
  pub plus_minus_tenth :
      (x : S.F64) → S.Le S.zero_score x → S.Le x S.one_score → ¬ S.IsNan (S.plus x S.minus_tenth)

pub record ReputationTracker (S : Scale) (A : Type 0) : Type 0 where
  pub reputations : Map A S.F64
  pub default_reputation : S.F64

abbrev pub or_default {ℓ} : {V : Type ℓ} → Option V → V → V
or_default none v = v
or_default (some w) v = w

-- The validators collected into a map, each with the default.
unfoldable pub collect : {A V : Type 0} → Discrete A → V → List A → Map A V → Map A V
collect d default [] m = m
collect d default (v ∷ vs) m = collect d default vs (insert d v default m)

module _ {S : Scale} {A : Type 0} (d : Discrete A) where
  unfoldable pub new : List A → S.F64 → ReputationTracker S A
  unfolding collect
  new validators default_reputation = record {
    reputations = collect d default_reputation validators [];
    default_reputation = default_reputation;
  }

  unfoldable pub get_reputation : ReputationTracker S A → A → S.F64
  get_reputation t author = or_default (get d author t.reputations) t.default_reputation

  unfoldable pub update_reputation : ReputationTracker S A → A → S.F64 → ReputationTracker S A
  update_reputation t author delta =
      let entry = or_default (get d author t.reputations) t.default_reputation in
      record t { reputations = insert d author (S.clamp (S.plus entry delta)) t.reputations }

  unfoldable pub record_success : ReputationTracker S A → A → ReputationTracker S A
  unfolding update_reputation
  record_success t author = update_reputation t author S.hundredth

  unfoldable pub record_failure : ReputationTracker S A → A → ReputationTracker S A
  unfolding update_reputation
  record_failure t author = update_reputation t author S.minus_tenth

module _ {S : Scale} {A : Type 0} where
  unfoldable pub reset : ReputationTracker S A → ReputationTracker S A
  reset t = record t { reputations = map (λ e. (e.0, t.default_reputation)) t.reputations }

-- A `ProposerElection<Round = u64>` as its two methods.
pub record Election (S : Scale) (A : Type 0) : Type 0 where
  pub get_valid_proposer : ℕ → Option A
  pub participation_ratio : ℕ → S.F64

pub record ProposerElectionImpl (S : Scale) (A : Type 0) : Type 0 where
  pub base_election : Election S A
  pub reputation : Option (ReputationTracker S A)

module _ {S : Scale} {A : Type 0} where
  unfoldable pub new_election :
      Election S A → Option (ReputationTracker S A) → ProposerElectionImpl S A
  new_election base_election reputation = record {
    base_election = base_election;
    reputation = reputation;
  }

  unfoldable pub without_reputation : Election S A → ProposerElectionImpl S A
  without_reputation base_election = record { base_election = base_election; reputation = none }

  -- The reputation is not read.
  unfoldable pub election : ProposerElectionImpl S A → Election S A
  election e = record {
    get_valid_proposer = λ round. e.base_election.get_valid_proposer round;
    participation_ratio = λ round. e.base_election.participation_ratio round;
  }
