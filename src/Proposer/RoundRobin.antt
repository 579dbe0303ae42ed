-- ===== src/Proposer/RoundRobin.antt =====
-- The rotation of the round-robin election (consensus-core/src/liveness/proposer.rs).
use aptosbft.Common.{
  ℕ, ◌+◌, ◌-◌, ◌*◌, ◌%◌, ◌≤◌, ◌<◌, ◌≡◌, some, length, get_elem?, get_elem?-total, arith, ap, ◌∙◌,
}
use native.Mathlib.Nat.{mul-add-mod_self_right, mod-eq_of_lt, add-mod_right}
use aptosbft.Proposer.{RoundRobinProposer, round_robin}

turn-mod : (cycle i first n : ℕ) → i < n → (first + (cycle * n + i) - first) % n ≡ i
turn-mod cycle i first n h =
    ap (λ t. t % n) (omega arith) ∙ mul-add-mod_self_right cycle n i ∙ mod-eq_of_lt h

module _ {ℓ} {A : Type ℓ} (p : RoundRobinProposer A) where
  -- Counted from the initial round, every cycle of as many rounds as there are validators gives
  -- each validator its turn, in the order of the list.
  pub round_robin_turn :
      (cycle i : ℕ)
      → i < length p.validators
      → (a : A) × (get_elem? p.validators i ≡ some a)
        × (round_robin p (p.config.initial_round + (cycle * length p.validators + i)) ≡ some a)
  unfolding round_robin
  round_robin_turn cycle i h =
      let (a, e) = get_elem?-total p.validators i h in
      (a, e, ground (arith, e, turn-mod cycle i p.config.initial_round (length p.validators) h))

  -- From the initial round on the election repeats itself after as many rounds as there are
  -- validators.
  pub round_robin_periodic :
      (round : ℕ)
      → p.config.initial_round ≤ round
      → round_robin p (round + length p.validators) ≡ round_robin p round
  unfolding round_robin
  round_robin_periodic round h =
      let first = p.config.initial_round in
      let n = length p.validators in
      let shift : (round + n - first) % n ≡ (round - first) % n =
        ap (λ t. t % n) (omega arith) ∙ add-mod_right (round - first) n in
      ground (arith, shift)
