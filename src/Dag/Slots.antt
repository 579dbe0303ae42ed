-- ===== src/Dag/Slots.antt =====
-- Of consensus-core/src/dag/store.rs: the `BTreeMap` of the rounds, as a list in the order of its
-- keys, and the vectors of optional entries.
use aptosbft.Common.{
  ℕ, zero, suc, ◌+◌, ◌-◌, ◌≤◌, ◌<◌, ◌≡◌, refl, ltb, leb, ◌==◌, if◌then◌else◌, Option, none, some,
  List, [], ◌∷◌, ◌++◌, length, length-append, arith,
}

module _ {ℓ} {V : Type ℓ} where
  unfoldable pub lookup : ℕ → List (ℕ × V) → Option V
  lookup k [] = none
  lookup k ((k', v) ∷ m) = let rest = lookup k m in if k' == k then some v else rest

  -- The entry of a key is replaced, or added at its place.
  unfoldable pub put : ℕ → V → List (ℕ × V) → List (ℕ × V)
  put k v [] = (k, v) ∷ []
  put k v ((k', v') ∷ m) =
      let rest = put k v m in
      if ltb k k' then (k, v) ∷ (k', v') ∷ m else if k' == k then (k, v) ∷ m else (k', v') ∷ rest

  -- `split_off`: the entries from a key on.
  unfoldable pub split_off : ℕ → List (ℕ × V) → List (ℕ × V)
  split_off k [] = []
  split_off k ((k', v) ∷ m) = let rest = split_off k m in if leb k k' then (k', v) ∷ rest else rest

  -- The keys ascend, from above a bound on.
  abbrev pub Above : ℕ → List (ℕ × V) → Type 0
  Above b [] = Unit {0}
  Above b ((k, v) ∷ m) = (b ≤ k) × Above (k + 1) m

  pub lookup-put :
      (k k' : ℕ) (v : V) (m : List (ℕ × V))
      → lookup k' (put k v m) ≡ (if k == k' then some v else lookup k' m)
  unfolding lookup put
  lookup-put k k' v [] = refl
  lookup-put k k' v ((j, w) ∷ m) = ground (arith, lookup-put k k' v m)

  pub lookup-split_off :
      (k k' : ℕ) (m : List (ℕ × V))
      → lookup k' (split_off k m) ≡ (if leb k k' then lookup k' m else none)
  unfolding lookup split_off
  lookup-split_off k k' [] = ground arith
  lookup-split_off k k' ((j, w) ∷ m) = ground (arith, lookup-split_off k k' m)

  Above-mono : (b c : ℕ) (m : List (ℕ × V)) → b ≤ c → Above c m → Above b m
  Above-mono b c [] h a = tt
  Above-mono b c ((k, v) ∷ m) h a = (omega arith, a.1)

  pub put-Above : (b k : ℕ) (v : V) (m : List (ℕ × V)) → b ≤ k → Above b m → Above b (put k v m)
  unfolding put
  put-Above b k v [] h a = (h, tt)
  put-Above b k v ((j, w) ∷ m) h a = ground (arith, put-Above (j + 1) k v m, a)

  pub split_off-Above : (b k : ℕ) (m : List (ℕ × V)) → Above b m → Above b (split_off k m)
  unfolding split_off
  split_off-Above b k [] a = tt
  split_off-Above b k ((j, w) ∷ m) a =
      ground (arith, split_off-Above (j + 1) k m, Above-mono b (j + 1) (split_off k m))

-- A vector of as many empty slots.
unfoldable pub empty_slots {ℓ} : {V : Type ℓ} → ℕ → List (Option V)
empty_slots zero = []
empty_slots (suc n) = none ∷ empty_slots n

length-empty_slots {ℓ} : (V : Type ℓ) (n : ℕ) → length (empty_slots {V = V} n) ≡ n
unfolding empty_slots
length-empty_slots V zero = refl
length-empty_slots V (suc n) = omega (arith, length-empty_slots V n)

module _ {ℓ} {V : Type ℓ} where
  -- `resize(n, None)` where the vector is shorter.
  unfoldable pub resize : ℕ → List (Option V) → List (Option V)
  unfolding empty_slots
  resize n xs = xs ++ empty_slots (n - length xs)

  unfoldable pub set_slot : ℕ → Option V → List (Option V) → List (Option V)
  set_slot i v [] = []
  set_slot zero v (x ∷ xs) = v ∷ xs
  set_slot (suc i) v (x ∷ xs) = x ∷ set_slot i v xs

  -- What stands in a slot, nothing out of range.
  unfoldable pub slot : ℕ → List (Option V) → Option V
  slot i [] = none
  slot zero (x ∷ xs) = x
  slot (suc i) (x ∷ xs) = slot i xs

  pub slot-empty_slots : (i n : ℕ) → slot i (empty_slots n) ≡ none
  unfolding slot empty_slots
  slot-empty_slots i zero = refl
  slot-empty_slots zero (suc n) = refl
  slot-empty_slots (suc i) (suc n) = slot-empty_slots i n

  pub slot-append : (i n : ℕ) (xs : List (Option V)) → slot i (xs ++ empty_slots n) ≡ slot i xs
  unfolding slot
  slot-append i n [] = slot-empty_slots i n
  slot-append zero n (x ∷ xs) = refl
  slot-append (suc i) n (x ∷ xs) = slot-append i n xs

  -- Nothing stands out of range.
  pub slot-out_of_range : (i : ℕ) (xs : List (Option V)) → length xs ≤ i → slot i xs ≡ none
  unfolding slot
  slot-out_of_range i [] h = refl
  slot-out_of_range zero (x ∷ xs) h = absurd (omega (arith, h))
  slot-out_of_range (suc i) (x ∷ xs) h = slot-out_of_range i xs (omega (arith, h))

  pub slot-set_slot :
      (i j : ℕ) (v : Option V) (xs : List (Option V))
      → i < length xs
      → slot j (set_slot i v xs) ≡ (if i == j then v else slot j xs)
  unfolding slot set_slot
  slot-set_slot i j v [] h = absurd (omega arith)
  slot-set_slot zero zero v (x ∷ xs) h = refl
  slot-set_slot zero (suc j) v (x ∷ xs) h = ground arith
  slot-set_slot (suc i) zero v (x ∷ xs) h = ground arith
  slot-set_slot (suc i) (suc j) v (x ∷ xs) h = ground (arith, slot-set_slot i j v xs)

  pub length-resize :
      (n : ℕ) (xs : List (Option V)) → length (resize n xs) ≡ length xs + (n - length xs)
  unfolding resize
  length-resize n xs =
      omega (
        arith,
        length-append xs (empty_slots (n - length xs)),
        length-empty_slots V (n - length xs),
      )

  pub slot-resize : (i n : ℕ) (xs : List (Option V)) → slot i (resize n xs) ≡ slot i xs
  unfolding resize
  slot-resize i n xs = slot-append i (n - length xs) xs
