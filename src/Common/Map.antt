-- ===== src/Common/Map.antt =====
-- A hash map as an association list without repeated keys. A new key goes to the end; Rust leaves
-- the order of iteration open, and no statement rests on it.
use mathlib.Core.Path.{◌≡◌, refl, ap}
use mathlib.Core.Logic.{ite}
use mathlib.Core.Bool.{Bool, true, false}
use mathlib.Core.Option.{Option, none, some}
use mathlib.Core.List.{List, [], ◌∷◌, map, ◌++◌}
use Prim.Native.Nat.{ℕ, suc, ◌+◌, ◌≤◌}
use native.Mathlib.Omega.{arith}
use aptosbft.Common.Lists.{length, sum}
use aptosbft.Common.{◌++◌}

abbrev pub Map {ℓ} : Type ℓ → Type ℓ → Type ℓ
Map K V = List (K × V)

module _ {ℓ} {K V : Type ℓ} where
  abbrev pub keys : Map K V → List K
  keys = map λ e. e.0

  abbrev pub values : Map K V → List V
  values = map λ e. e.1

  pub length-keys : (m : Map K V) → length (keys m) ≡ length m
  length-keys [] = refl
  length-keys (e ∷ m) = ap suc (length-keys m)

  -- `retain` by a test on the key.
  unfoldable pub retain : (K → Bool) → Map K V → Map K V
  retain keep [] = []
  retain keep ((k, v) ∷ m) =
      let rest = retain keep m in elim (keep k) [ true ↦ (k, v) ∷ rest | false ↦ rest ]

module _ {ℓ} {K V : Type ℓ} (d : Discrete K) where
  unfoldable pub get : K → Map K V → Option V
  get k [] = none
  get k ((j, v) ∷ m) = ite (d j k) (some v) (get k m)

  abbrev is_some : Option V → Bool
  is_some none = false
  is_some (some v) = true

  unfoldable pub contains_key : K → Map K V → Bool
  unfolding get
  contains_key k m = is_some (get k m)

  unfoldable pub insert : K → V → Map K V → Map K V
  insert k v [] = (k, v) ∷ []
  insert k v ((j, w) ∷ m) = ite (d j k) ((k, v) ∷ m) ((j, w) ∷ insert k v m)

  unfoldable pub remove : K → Map K V → Map K V
  remove k [] = []
  remove k ((j, w) ∷ m) = ite (d j k) m ((j, w) ∷ remove k m)

  pub get-nil : (k : K) → get k [] ≡ none
  unfolding get
  get-nil k = refl

  pub get-insert :
      (k j : K) (v : V) (m : Map K V) → get j (insert k v m) ≡ ite (d k j) (some v) (get j m)
  unfolding get insert
  get-insert k j v [] = refl
  get-insert k j v ((i, w) ∷ m) = ground (arith, get-insert k j v m)

  -- A key that is not there is appended.
  pub length-insert_new :
      (k : K) (v : V) (m : Map K V) → get k m ≡ none → length (insert k v m) ≡ suc (length m)
  unfolding get insert
  length-insert_new k v [] h = refl
  length-insert_new k v ((i, w) ∷ m) h = ground (arith, length-insert_new k v m)

  pub get-retain :
      (k : K) (keep : K → Bool) (m : Map K V)
      → get k (retain keep m) ≡ elim (keep k) [ true ↦ get k m | false ↦ none ]
  unfolding get retain
  get-retain k keep [] = ground arith
  get-retain k keep ((i, w) ∷ m) = ground (arith, get-retain k keep m)

  pub values-insert_new :
      (k : K) (v : V) (m : Map K V) → get k m ≡ none → values (insert k v m) ≡ values m ++ (v ∷ [])
  unfolding get insert
  values-insert_new k v [] h = refl
  values-insert_new k v ((i, w) ∷ m) h = ground (arith, values-insert_new k v m)

  -- No key stands twice.
  abbrev pub IsDistinct : Map K V → Type ℓ
  IsDistinct [] = Unit
  IsDistinct ((k, v) ∷ m) = (get k m ≡ none) × IsDistinct m

  pub insert-IsDistinct : (k : K) (v : V) (m : Map K V) → IsDistinct m → IsDistinct (insert k v m)
  unfolding insert get
  insert-IsDistinct k v [] h = (refl, tt)
  insert-IsDistinct k v ((i, w) ∷ m) h =
      ground (arith, insert-IsDistinct k v m h.1, get-insert k i v m)

  -- The removal of a key.
  pub length-remove :
      (k : K) {v : V} (m : Map K V) → get k m ≡ some v → suc (length (remove k m)) ≡ length m
  unfolding get remove
  length-remove k [] h = ground arith
  length-remove k {v} ((i, w) ∷ m) h = ground (arith, length-remove k {v = v} m)

  pub get-remove :
      (k j : K) (m : Map K V) → IsDistinct m → get j (remove k m) ≡ ite (d k j) none (get j m)
  unfolding get remove
  get-remove k j [] h = ground arith
  get-remove k j ((i, w) ∷ m) h = ground (arith, get-remove k j m h.1, h.0)

  pub remove-IsDistinct : (k : K) (m : Map K V) → IsDistinct m → IsDistinct (remove k m)
  unfolding get remove
  remove-IsDistinct k [] h = tt
  remove-IsDistinct k ((i, w) ∷ m) h =
      ground (arith, remove-IsDistinct k m h.1, get-remove k i m h.1, h.0, h.1)

  -- A new key adds its value to a sum over the keys.
  pub sum-keys-insert :
      (f : K → ℕ) (k : K) (v : V) (m : Map K V)
      → get k m ≡ none
      → sum f (keys (insert k v m)) ≡ sum f (keys m) + f k
  unfolding get insert
  sum-keys-insert f k v [] h = omega arith
  sum-keys-insert f k v ((i, w) ∷ m) h = ground (arith, sum-keys-insert f k v m)

  contains_key-get : (k : K) (m : Map K V) → contains_key k m ≡ true → (v : V) × (get k m ≡ some v)
  unfolding contains_key
  contains_key-get k m h = go (get k m) refl
    where
      go : (found : Option V) → get k m ≡ found → (v : V) × (get k m ≡ some v)
      go none e = ground (arith, e, h)
      go (some v) e = (v, e)

  sum-keys-remove :
      (f : K → ℕ) (k : K) {v : V} (m : Map K V)
      → get k m ≡ some v
      → sum f (keys m) ≡ sum f (keys (remove k m)) + f k
  unfolding get remove
  sum-keys-remove f k [] h = ground arith
  sum-keys-remove f k {v} ((i, w) ∷ m) h = ground (arith, sum-keys-remove f k {v = v} m)

  -- A sum over distinct keys is at most that over keys among which they are.
  pub sum-keys_mono :
      (f : K → ℕ) (m n : Map K V)
      → IsDistinct m
      → IsDistinct n
      → ((k : K) → contains_key k m ≡ true → contains_key k n ≡ true)
      → sum f (keys m) ≤ sum f (keys n)
  unfolding get contains_key
  sum-keys_mono f [] n hm hn h = omega arith
  sum-keys_mono f ((k, v) ∷ m) n hm hn h =
      let (w, e) = contains_key-get k n (h k (ground arith)) in
      let rest =
        sum-keys_mono f m (remove k n) hm.1 (remove-IsDistinct k n hn)
          (λ j c. ground (arith, get-remove k j n hn, h j, hm.0, c)) in
      omega (arith, sum-keys-remove f k {v = w} n e, rest)

  abbrev pub value_or : (V → ℕ) → Option V → ℕ
  value_or f none = 0
  value_or f (some v) = f v

  -- A write replaces the value's share of a sum over the values.
  pub sum-values-insert :
      (f : V → ℕ) (k : K) (v : V) (m : Map K V)
      → sum f (values (insert k v m)) + value_or f (get k m) ≡ sum f (values m) + f v
  unfolding get insert
  sum-values-insert f k v [] = omega arith
  sum-values-insert f k v ((i, w) ∷ m) = ground (arith, sum-values-insert f k v m)

unfoldable pub pair_eq {ℓ} : {A B : Type ℓ} → Discrete A → Discrete B → Discrete (A × B)
pair_eq d e (a, b) (a', b') = elim (d a a') [
  | yes p ↦ elim (e b b') [ yes q ↦ yes (cc) | no n ↦ no (λ h. n (ap (λ x. x.1) h)) ]
  | no n ↦ no (λ h. n (ap (λ x. x.0) h))
]
