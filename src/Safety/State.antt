-- ===== src/Safety/State.antt =====
-- The persistent safety state: consensus-core/src/safety_rules/state.rs.
use aptosbft.Common.{ℕ, Bool, true, false, ltb, leb, if◌then◌else◌}

pub record SafetyStateData : Type 0 where
  pub epoch : ℕ
  pub last_voted_round : ℕ
  pub preferred_round : ℕ
  pub one_chain_round : ℕ
  pub highest_timeout_round : ℕ

abbrev pub new_state : ℕ → ℕ → ℕ → ℕ → ℕ → SafetyStateData
new_state epoch last_voted_round preferred_round one_chain_round highest_timeout_round = record {
  epoch = epoch;
  last_voted_round = last_voted_round;
  preferred_round = preferred_round;
  one_chain_round = one_chain_round;
  highest_timeout_round = highest_timeout_round;
}

unfoldable pub new_epoch : SafetyStateData → ℕ → SafetyStateData
new_epoch s epoch = record {
  epoch = epoch;
  last_voted_round = 0;
  preferred_round = s.preferred_round;
  one_chain_round = 0;
  highest_timeout_round = 0;
}

unfoldable pub can_vote_in_round : SafetyStateData → ℕ → Bool
can_vote_in_round s round = leb s.last_voted_round round

unfoldable pub update_one_chain_round : SafetyStateData → ℕ → SafetyStateData × Bool
update_one_chain_round s round =
    if ltb s.one_chain_round round then (record s { one_chain_round = round }, true) else (s, false)

unfoldable pub update_preferred_round : SafetyStateData → ℕ → SafetyStateData × Bool
update_preferred_round s round =
    if ltb s.preferred_round round then (record s { preferred_round = round }, true) else (s, false)

unfoldable pub update_highest_timeout_round : SafetyStateData → ℕ → SafetyStateData × Bool
update_highest_timeout_round s round =
    if ltb s.highest_timeout_round round
    then (record s { highest_timeout_round = round }, true)
    else (s, false)
