-- ===== src/Reconfig/Quorum.antt =====
-- Quorums of the validator sets of a reconfiguration (consensus-core/src/consensus/reconfig.rs).
use aptosbft.Common.{
  ℕ, zero, suc, ◌+◌, ◌*◌, ◌≤◌, ◌<◌, ◌≡◌, Bool, true, false, ◌&&◌, if◌then◌else◌, ite, none, some,
  List, [], ◌∷◌, arith, sum,
}
use aptosbft.Common.Map.{Map, get, values}
use aptosbft.Reconfig.{ValidatorSet, new_set, quorum_threshold, has_quorum}

module _ {A : Type 0} (d : Discrete A) where
  abbrev pub is_voter : List A → A → Bool
  is_voter [] a = false
  is_voter (v ∷ voters) a = ite (d v a) true (is_voter voters a)

  abbrev pub NoneTwice : List A → Type 0
  NoneTwice [] = Unit {0}
  NoneTwice (v ∷ voters) = (is_voter voters v ≡ false) × NoneTwice voters

  -- The power that `has_quorum` adds up.
  abbrev counted : Map A ℕ → List A → ℕ
  counted m = sum λ v. elim (get d v m) [ none ↦ 0 | some power ↦ power ]

-- The joint power of the validators of a set.
abbrev pub joint_power : {A : Type 0} → (A → Bool) → Map A ℕ → ℕ
joint_power among [] = 0
joint_power among ((k, power) ∷ m) = (if among k then power else 0) + joint_power among m

module _ {A : Type 0} (d : Discrete A) where
  joint_power-cons :
      (v : A) (voters : List A) (m : Map A ℕ)
      → is_voter d voters v ≡ false
      → elim (get d v m) [ none ↦ 0 | some power ↦ power ] + joint_power (is_voter d voters) m
        ≤ joint_power (is_voter d (v ∷ voters)) m
  unfolding get
  joint_power-cons v voters [] h = omega arith
  joint_power-cons v voters ((k, power) ∷ m) h = ground (arith, joint_power-cons v voters m h, h)

  counted-joint_power :
      (m : Map A ℕ) (voters : List A)
      → NoneTwice d voters
      → counted d m voters ≤ joint_power (is_voter d voters) m
  counted-joint_power m [] h = omega arith
  counted-joint_power m (v ∷ voters) h =
      omega (arith, counted-joint_power m voters h.1, joint_power-cons v voters m h.0)

  overlap :
      (a b : A → Bool) (m : Map A ℕ)
      → joint_power a m + joint_power b m
        ≤ sum (λ power. power) (values m) + joint_power (λ k. a k && b k) m
  overlap a b [] = omega arith
  overlap a b ((k, power) ∷ m) = ground (arith, overlap a b m)

  -- Two lists of voters, none of whom stands twice in a list, that both have a quorum of a
  -- validator set share validators with more than a third of its total power.
  pub quorums_share :
      (epoch : ℕ) (m : Map A ℕ) (voters others : List A)
      → NoneTwice d voters
      → NoneTwice d others
      → has_quorum d (new_set epoch m) voters ≡ true
      → has_quorum d (new_set epoch m) others ≡ true
      → (new_set epoch m).total_voting_power
        < 3 * joint_power (λ v. is_voter d voters v && is_voter d others v) m
  unfolding has_quorum quorum_threshold new_set
  quorums_share epoch m voters others once once' quorum quorum' = ground (
    arith,
    quorum,
    quorum',
    counted-joint_power m voters once,
    counted-joint_power m others once',
    overlap (is_voter d voters) (is_voter d others) m,
  )

  abbrev pub repeated : ℕ → A → List A
  repeated zero v = []
  repeated (suc n) v = v ∷ repeated n v

  counted-repeated :
      (m : Map A ℕ) (v : A) {power : ℕ} (n : ℕ)
      → get d v m ≡ some power
      → 0 < power
      → n ≤ counted d m (repeated n v)
  counted-repeated m v zero e h = omega arith
  counted-repeated m v {power} (suc n) e h =
      ground (arith, e, h, counted-repeated m v {power = power} n e h)

  -- A validator with power that is counted as often as the threshold makes up a quorum alone.
  pub has_quorum-repeated :
      (s : ValidatorSet A) (v : A) {power : ℕ}
      → get d v s.validators ≡ some power
      → 0 < power
      → has_quorum d s (repeated (quorum_threshold s) v) ≡ true
  unfolding has_quorum
  has_quorum-repeated s v {power} e h =
      ground (arith, counted-repeated s.validators v {power = power} (quorum_threshold s) e h)
