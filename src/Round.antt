-- ===== src/Round.antt =====
-- The state of a round: consensus-core/src/state/round_state.rs.
use aptosbft.Common.{ℕ, ◌+◌, Bool, ◌&&◌, ltb, leb, ◌==◌, u64, Option, none, some}
use aptosbft.Traits.{Traits}
use aptosbft.Types.{genesis_epoch, genesis_round}

pub record RoundStateConfig : Type 0 where
  pub initial_epoch : ℕ
  pub initial_round : ℕ
  pub max_buffered_rounds : ℕ

unfoldable pub default_config : RoundStateConfig
default_config = record {
  initial_epoch = genesis_epoch;
  initial_round = genesis_round;
  max_buffered_rounds = 10;
}

pub record RoundState (T : Traits) : Type 0 where
  pub epoch : ℕ
  pub round : ℕ
  pub proposed_block : Option T.Block
  pub quorum_cert : Option T.QuorumCert
  pub config : RoundStateConfig

unfoldable pub new : (T : Traits) → RoundStateConfig → RoundState T
new T config = record {
  epoch = config.initial_epoch;
  round = config.initial_round;
  proposed_block = none;
  quorum_cert = none;
  config = config;
}

module _ {T : Traits} where
  unfoldable pub set_round : RoundState T → ℕ → RoundState T
  set_round s round = record s { round = round; proposed_block = none }

  unfoldable pub set_epoch : RoundState T → ℕ → RoundState T
  set_epoch s epoch = record s {
    epoch = epoch;
    round = s.config.initial_round;
    proposed_block = none;
    quorum_cert = none;
  }

  unfoldable pub set_proposed_block : RoundState T → T.Block → RoundState T
  set_proposed_block s block = record s { proposed_block = some block }

  unfoldable pub set_quorum_cert : RoundState T → T.QuorumCert → RoundState T
  set_quorum_cert s qc = record s { quorum_cert = some qc }

  -- `self.round += 1` wraps at the greatest round.
  unfoldable pub advance_round : RoundState T → RoundState T
  advance_round s = record s { round = u64 (s.round + 1); proposed_block = none }

  unfoldable pub is_current_round : RoundState T → ℕ → Bool
  is_current_round s round = s.round == round

  unfoldable pub is_current_epoch : RoundState T → ℕ → Bool
  is_current_epoch s epoch = s.epoch == epoch

  unfoldable pub is_buffered_round : RoundState T → ℕ → Bool
  is_buffered_round s round =
      ltb s.round round && leb round (u64 (s.round + s.config.max_buffered_rounds))
