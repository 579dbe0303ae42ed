-- ===== src/Pacemaker.antt =====
-- The pacemaker: consensus-core/src/liveness/pacemaker.rs. Durations are milliseconds. The floating
-- point numbers of the exponential strategy are a parameter.
pub mod Rounds
pub mod Builder
use aptosbft.Common.{
  ℕ, ◌+◌, ◌-◌, ◌%◌, Bool, ltb, leb, ◌==◌, not, min, u64, if◌then◌else◌, Result, ok, err, panic,
}

-- `f64`: the operations that the strategy uses, with `base.powf(n)` at a whole `n`.
pub record Floats : Type 1 where
  pub F64 : Type 0
  pub powf : F64 → ℕ → F64
  pub of_u64 : ℕ → F64
  pub times : F64 → F64 → F64
  pub ceil_u64 : F64 → ℕ
  -- `x.ceil() < f64::from(u32::MAX)`
  pub ceil_below_u32_max : F64 → Bool

pub record PacemakerConfig (F : Floats) : Type 0 where
  pub base_duration_ms : ℕ
  pub exponent_base : F.F64
  pub max_exponent : ℕ
  pub initial_round : ℕ

pub data NewRoundReason : Type 0 where
  quorum_certificate : NewRoundReason
  timeout : ℕ → NewRoundReason

pub record NewRoundEvent : Type 0 where
  pub round : ℕ
  pub reason : NewRoundReason
  pub timeout_duration : ℕ

-- A `RoundIntervalStrategy` is its one method, `get_round_duration`.
abbrev pub RoundIntervalStrategy : Type 0
RoundIntervalStrategy = ℕ → ℕ

pub record ExponentialIntervalStrategy (F : Floats) : Type 0 where
  pub base_ms : ℕ
  pub exponent_base : F.F64
  pub max_exponent : ℕ

-- `ExponentialIntervalStrategy::new`; its two assertions panic.
unfoldable pub new_strategy {ℓ} :
    {E : Type ℓ} (F : Floats) → ℕ → F.F64 → ℕ → Result E (ExponentialIntervalStrategy F)
new_strategy F base_ms exponent_base max_exponent =
    if not (ltb max_exponent 32)
    then panic
    else if not (F.ceil_below_u32_max (F.powf exponent_base max_exponent))
    then panic
    else ok
        (record { base_ms = base_ms; exponent_base = exponent_base; max_exponent = max_exponent })

-- `as u32` keeps the low 32 bits.
abbrev pub u32 : ℕ → ℕ
u32 n = n % 4294967296

unfoldable pub get_round_duration :
    {F : Floats} → ExponentialIntervalStrategy F → RoundIntervalStrategy
get_round_duration {F} s round_index_after_ordered =
    let pow = min (u32 round_index_after_ordered) (u32 s.max_exponent) in
    F.ceil_u64 (F.times (F.of_u64 s.base_ms) (F.powf s.exponent_base pow))

pub record Pacemaker (F : Floats) : Type 0 where
  pub interval_strategy : RoundIntervalStrategy
  pub highest_ordered_round : ℕ
  pub current_round : ℕ
  pub config : PacemakerConfig F

pub data PacemakerError : Type 0 where
  cannot_enter_round : ℕ → ℕ → PacemakerError
  not_greater : ℕ → ℕ → PacemakerError

abbrev pub reason_of : ℕ → NewRoundReason
reason_of rounds_since_ordered =
    if rounds_since_ordered == 0 then quorum_certificate else timeout rounds_since_ordered

module _ {F : Floats} where
  unfoldable pub new : RoundIntervalStrategy → PacemakerConfig F → Pacemaker F
  new interval_strategy config = record {
    interval_strategy = interval_strategy;
    highest_ordered_round = config.initial_round - 1;
    current_round = config.initial_round;
    config = config;
  }

  unfoldable pub can_enter_round : Pacemaker F → ℕ → Bool
  can_enter_round p round = ltb p.current_round round

  unfoldable pub enter_new_round :
      Pacemaker F → ℕ → Pacemaker F × Result PacemakerError NewRoundEvent
  unfolding can_enter_round
  enter_new_round p round =
      let rounds_since_ordered = round - u64 (p.highest_ordered_round + 1) in
      if not (can_enter_round p round)
      then (p, err (cannot_enter_round round p.current_round))
      else (
        record p { current_round = round },
        ok (record {
          round = round;
          reason = reason_of rounds_since_ordered;
          timeout_duration = p.interval_strategy rounds_since_ordered;
        }),
      )

  unfoldable pub record_ordered_round :
      Pacemaker F → ℕ → Pacemaker F × Result PacemakerError (Unit {0})
  record_ordered_round p round =
      if leb round p.highest_ordered_round
      then (p, err (not_greater round p.highest_ordered_round))
      else (record p { highest_ordered_round = round }, ok tt)

  unfoldable pub current_round_timeout : Pacemaker F → ℕ
  current_round_timeout p =
      p.interval_strategy (p.current_round - u64 (p.highest_ordered_round + 1))

  -- The elapsed time is not read.
  unfoldable pub check_timeout : Pacemaker F → ℕ → Bool
  check_timeout p elapsed = Bool.false

  unfoldable pub reset : Pacemaker F → ℕ → Pacemaker F
  reset p round = record p { current_round = round; highest_ordered_round = round - 1 }
