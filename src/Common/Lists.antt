-- ===== src/Common/Lists.antt =====
-- Lists measured and indexed by native numbers, and predicates on all their elements.
use Prim.Native.Nat.{ℕ, zero, suc, ◌+◌, ◌<◌, ◌≤◌, max}
use mathlib.Core.Path.{◌≡◌, refl}
use mathlib.Core.List.{List, [], ◌∷◌, ◌++◌}
use mathlib.Core.Option.{Option, none, some}
use native.Mathlib.Omega.{arith}

module _ {ℓ} {A : Type ℓ} where
  abbrev pub length : List A → ℕ
  length [] = 0
  length (x ∷ xs) = suc (length xs)

  abbrev pub get_elem? : List A → ℕ → Option A
  get_elem? [] i = none
  get_elem? (x ∷ xs) zero = some x
  get_elem? (x ∷ xs) (suc i) = get_elem? xs i

  pub length-append : (xs ys : List A) → length (xs ++ ys) ≡ length xs + length ys
  length-append [] ys = omega arith
  length-append (x ∷ xs) ys = omega (arith, length-append xs ys)

  -- Every index below the length has an element.
  pub get_elem?-total : (xs : List A) (i : ℕ) → i < length xs → (a : A) × (get_elem? xs i ≡ some a)
  get_elem?-total [] i h = elim h [ ]
  get_elem?-total (x ∷ xs) zero h = (x, refl)
  get_elem?-total (x ∷ xs) (suc i) h = get_elem?-total xs i (omega arith)

module _ {ℓ κ} {A : Type ℓ} (P : A → Type κ) where
  abbrev pub All : List A → Type κ
  All [] = Unit
  All (x ∷ xs) = P x × All xs

  pub All-append : (xs ys : List A) → All xs → All ys → All (xs ++ ys)
  All-append [] ys hx hy = hy
  All-append (x ∷ xs) ys hx hy = (hx.0, All-append xs ys hx.1 hy)

abbrev pub sum {ℓ} : {A : Type ℓ} → (A → ℕ) → List A → ℕ
sum f [] = 0
sum f (x ∷ xs) = f x + sum f xs

pub sum-append {ℓ} :
    {A : Type ℓ} (f : A → ℕ) (xs ys : List A) → sum f (xs ++ ys) ≡ sum f xs + sum f ys
sum-append f [] ys = omega arith
sum-append f (x ∷ xs) ys = omega (arith, sum-append f xs ys)

-- The greatest value of `f` over a list, from a start on.
abbrev pub highest {ℓ} : {A : Type ℓ} → (A → ℕ) → ℕ → List A → ℕ
highest f n [] = n
highest f n (x ∷ xs) = highest f (max n (f x)) xs

pub highest-le {ℓ} : {A : Type ℓ} (f : A → ℕ) (n : ℕ) (xs : List A) → n ≤ highest f n xs
highest-le f n [] = omega arith
highest-le f n (x ∷ xs) = omega (arith, highest-le f (max n (f x)) xs)

-- Numbers that do not fall, from a start on.
abbrev pub Ascends : ℕ → List ℕ → Type 0
Ascends n [] = Unit {0}
Ascends n (x ∷ xs) = (n ≤ x) × Ascends x xs

pub Ascends-mono : (m n : ℕ) (xs : List ℕ) → m ≤ n → Ascends n xs → Ascends m xs
Ascends-mono m n [] h a = tt
Ascends-mono m n (x ∷ xs) h a = (omega arith, a.1)
