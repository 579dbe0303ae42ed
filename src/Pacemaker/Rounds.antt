-- ===== src/Pacemaker/Rounds.antt =====
-- The rounds of the pacemaker (consensus-core/src/liveness/pacemaker.rs).
use aptosbft.Common.{
  ℕ, ◌+◌, ◌-◌, ◌≤◌, ◌<◌, ◌≡◌, refl, u64_max, ok, err, List, [], ◌∷◌, arith, highest, ◌⊎◌, max,
  Bool-cases, ltb, inl, u64, inr,
}
use aptosbft.Pacemaker.{
  cannot_enter_round, reason_of, Floats, Pacemaker, NewRoundEvent, quorum_certificate, timeout,
  enter_new_round, record_ordered_round, current_round_timeout, reset, ExponentialIntervalStrategy,
  get_round_duration,
}

module _ {F : Floats} where
  -- Where the highest ordered round is below the greatest u64, a round is entered exactly if it is
  -- above the current one. The event names the round, its cause (a quorum certificate for a round
  -- at most one above the highest ordered round, otherwise a timeout with the number of rounds
  -- since) and the timeout that the pacemaker then has. A refused round changes nothing.
  pub enter_new_round_cases :
      (p : Pacemaker F) (round : ℕ)
      → p.highest_ordered_round < u64_max
      → let (p', result) = enter_new_round p round in
        let next = p.highest_ordered_round + 1 in
        ((event : NewRoundEvent) × (p.current_round < round)
          × (result ≡ ok event)
          × (p' ≡ record p { current_round = round })
          × (event.round ≡ round)
          × (event.timeout_duration ≡ current_round_timeout p')
          × (((round ≤ next) × (event.reason ≡ quorum_certificate))
              ⊎ ((next < round) × (event.reason ≡ timeout (round - next)))))
        ⊎ ((round ≤ p.current_round)
            × (result ≡ err (cannot_enter_round round p.current_round))
            × (p' ≡ p))
  unfolding enter_new_round current_round_timeout
  enter_new_round_cases p round b = elim (Bool-cases (ltb p.current_round round)) [
    | inl above ↦ inl (
      record {
        round = round;
        reason = reason_of (round - u64 (p.highest_ordered_round + 1));
        timeout_duration = p.interval_strategy (round - u64 (p.highest_ordered_round + 1));
      },
      ground arith,
      ground arith,
      ground arith,
      refl,
      ground arith,
      ground arith,
    )
    | inr below ↦ inr (ground arith, ground arith, ground arith)
  ]

  -- A fresh or reset pacemaker gives its round the base duration.
  pub base_timeout :
      (p : Pacemaker F) (round : ℕ)
      → round ≤ u64_max
      → current_round_timeout (reset p round) ≡ p.interval_strategy 0
  unfolding reset current_round_timeout
  base_timeout p round b = ground arith

  -- Past the greatest exponent the exponential strategy gives one duration.
  pub duration_capped :
      (s : ExponentialIntervalStrategy F) (i j : ℕ)
      → s.max_exponent ≤ i
      → i < 4294967296
      → s.max_exponent ≤ j
      → j < 4294967296
      → get_round_duration s i ≡ get_round_duration s j
  unfolding get_round_duration
  duration_capped s i j a b c d = ground arith

pub data Call : Type 0 where
  enters orders : ℕ → Call

abbrev pub entered : Call → ℕ
entered (enters round) = round
entered (orders round) = 0

abbrev pub ordered : Call → ℕ
ordered (enters round) = 0
ordered (orders round) = round

module _ {F : Floats} where
  abbrev pub step : Pacemaker F → Call → Pacemaker F
  step p (enters round) = (enter_new_round p round).0
  step p (orders round) = (record_ordered_round p round).0

  step-rounds :
      (p : Pacemaker F) (c : Call)
      → ((step p c).current_round ≡ max p.current_round (entered c))
        × ((step p c).highest_ordered_round ≡ max p.highest_ordered_round (ordered c))
  unfolding enter_new_round record_ordered_round
  step-rounds p (enters round) = ground arith
  step-rounds p (orders round) = ground arith

  abbrev pub run : Pacemaker F → List Call → Pacemaker F
  run p [] = p
  run p (c ∷ cs) = run (step p c) cs

  -- The current and the highest ordered round never fall: each is the greatest of those asked for
  -- and where it began.
  pub run-rounds :
      (p : Pacemaker F) (cs : List Call)
      → ((run p cs).current_round ≡ highest entered p.current_round cs)
        × ((run p cs).highest_ordered_round ≡ highest ordered p.highest_ordered_round cs)
  run-rounds p [] = (refl, refl)
  run-rounds p (c ∷ cs) =
      let (a, b) = step-rounds p c in
      let (a', b') = run-rounds (step p c) cs in (rw (← a) a', rw (← b) b')
