-- ===== src/Pacemaker/Builder.antt =====
-- The default configuration and the builder of a pacemaker (consensus-core/src/liveness/pacemaker.rs).
use aptosbft.Common.{ℕ, Result, ok, ◌>>=◌}
use aptosbft.Pacemaker.{Floats, Pacemaker, PacemakerConfig, new_strategy, get_round_duration, new}

-- `PacemakerConfig::default`, with the number 2.0.
abbrev pub default_config : (F : Floats) → F.F64 → PacemakerConfig F
default_config F two = record {
  base_duration_ms = 1000;
  exponent_base = two;
  max_exponent = 8;
  initial_round = 1;
}

pub record PacemakerBuilder (F : Floats) : Type 0 where
  pub config : PacemakerConfig F

module _ {F : Floats} where
  unfoldable pub new_builder : F.F64 → PacemakerBuilder F
  new_builder two = record { config = default_config F two }

  unfoldable pub base_duration_ms : PacemakerBuilder F → ℕ → PacemakerBuilder F
  base_duration_ms b duration_ms = record b {
    config = record (b.config) { base_duration_ms = duration_ms };
  }

  unfoldable pub exponent_base : PacemakerBuilder F → F.F64 → PacemakerBuilder F
  exponent_base b base = record b { config = record (b.config) { exponent_base = base } }

  unfoldable pub max_exponent : PacemakerBuilder F → ℕ → PacemakerBuilder F
  max_exponent b max = record b { config = record (b.config) { max_exponent = max } }

  unfoldable pub initial_round : PacemakerBuilder F → ℕ → PacemakerBuilder F
  initial_round b round = record b { config = record (b.config) { initial_round = round } }

  unfoldable pub build_exponential {ℓ} : {E : Type ℓ} → PacemakerBuilder F → Result E (Pacemaker F)
  unfolding new_strategy get_round_duration new
  build_exponential b = do
    strategy ← new_strategy F b.config.base_duration_ms b.config.exponent_base b.config.max_exponent
    ok (new (get_round_duration strategy) b.config)
