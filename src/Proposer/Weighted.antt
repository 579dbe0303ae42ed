-- ===== src/Proposer/Weighted.antt =====
-- The shares of the weighted election (consensus-core/src/liveness/proposer.rs).
use aptosbft.Common.{
  ℕ, ◌+◌, ◌*◌, ◌%◌, ◌≤◌, ◌<◌, ◌≡◌, some, Option, List, [], ◌∷◌, ◌++◌, length, sum, sum-append, ok,
  panic, arith, ◌∙◌, ap, length-append,
}
use native.Mathlib.Nat.{mul-add-mod_self_right, mod-eq_of_lt}
use aptosbft.Proposer.{ProposerElectionConfig, new_weighted, weighted, select, last}

module _ {ℓ} {A : Type ℓ} where
  abbrev pub powers : List (A × ℕ) → ℕ
  powers = sum λ e. e.1

  select_share :
      (before after : List (A × ℕ)) (v : A) (w target cumulative : ℕ) (fallback : Option A)
      → cumulative + powers before ≤ target
      → target < cumulative + powers before + w
      → select target cumulative fallback (before ++ (v, w) ∷ after) ≡ some v
  unfolding select
  select_share [] after v w target cumulative fallback lo hi = ground arith
  select_share ((u, x) ∷ before) after v w target cumulative fallback lo hi =
      ground (arith, select_share before after v w target (cumulative + x) fallback)

  -- From the initial round on, in every cycle of as many rounds as the total power, a validator
  -- proposes in the rounds, as many as its weight, that follow the weights of the validators before
  -- it.
  pub weighted_share {κ} :
      {E : Type κ} (before after : List (A × ℕ)) (v : A) (w : ℕ) (config : ProposerElectionConfig)
      (cycle j : ℕ)
      → j < w
      → config.initial_round ≤ cycle * powers (before ++ (v, w) ∷ after) + (powers before + j)
      → weighted {E = E}
          (new_weighted (before ++ (v, w) ∷ after) config)
          (cycle * powers (before ++ (v, w) ∷ after) + (powers before + j))
        ≡ ok (some v)
  unfolding weighted new_weighted
  weighted_share before after v w config cycle j h r =
      let vs : List (A × ℕ) = before ++ (v, w) ∷ after in
      let all = sum-append (λ (e : A × ℕ). e.1) before ((v, w) ∷ after) in
      let target : (cycle * powers vs + (powers before + j)) % powers vs ≡ powers before + j =
        mul-add-mod_self_right cycle (powers vs) (powers before + j)
        ∙ mod-eq_of_lt (omega (arith, all)) in
      let chosen =
        ap (λ t. select t 0 (last vs) vs) target
        ∙ select_share before after v w (powers before + j) 0 (last vs) (omega arith)
            (omega arith) in
      ground (arith, chosen, all, length-append before ((v, w) ∷ after))

  -- An election among validators that all have no power panics.
  pub weighted_panics {κ} :
      {E : Type κ} (vs : List (A × ℕ)) (config : ProposerElectionConfig) (round : ℕ)
      → powers vs ≡ 0
      → 0 < length vs
      → config.initial_round ≤ round
      → weighted {E = E} (new_weighted vs config) round ≡ panic
  unfolding weighted new_weighted
  weighted_panics vs config round z n r = ground arith
