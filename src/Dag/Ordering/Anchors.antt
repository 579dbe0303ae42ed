-- ===== src/Dag/Ordering/Anchors.antt =====
-- Anchors of the DAG (consensus-core/src/dag/ordering.rs).
use aptosbft.Common.{
  ℕ, zero, suc, ◌+◌, ◌<◌, ◌≡◌, ◌≢◌, refl, none, some, List, [], ◌∷◌, get_elem?, ok, panic, arith,
  ◌⊎◌, inl, inr, ite, ap,
}
use aptosbft.Dag.Ordering.{RoundRobinAnchorElection, get_author_index, round_robin_anchor, position}

module _ {ℓ} {A : Type ℓ} where
  -- The first index of an author in a list.
  abbrev pub IsFirst : A → List A → ℕ → Type ℓ
  IsFirst author authors i =
      (get_elem? authors i ≡ some author) × ((j : ℕ) → j < i → get_elem? authors j ≢ some author)

  IsFirst-cons :
      (author a : A) (authors : List A) (i : ℕ)
      → a ≢ author
      → IsFirst author authors i
      → IsFirst author (a ∷ authors) (suc i)
  IsFirst-cons author a authors i n (there, before) = (there, go)
    where
      go : (j : ℕ) → j < suc i → get_elem? (a ∷ authors) j ≢ some author
      go zero below e = ground (arith, n, e)
      go (suc j) below e = before j (omega (arith, below)) e

module _ {ℓ} {A : Type ℓ} (d : Discrete A) where
  position_cases :
      (author : A) (index : ℕ) (authors : List A)
      → ((position d author index authors ≡ none) × ((j : ℕ) → get_elem? authors j ≢ some author))
        ⊎ ((i : ℕ) × (position d author index authors ≡ some (index + i))
            × IsFirst author authors i)
  position_cases author index [] = inl (refl, λ j. ground arith)
  position_cases author index (a ∷ authors) =
      go (d a author) (position_cases author (suc index) authors)
    where
      go :
          (t : Dec (a ≡ author))
          → ((position d author (suc index) authors ≡ none)
              × ((j : ℕ) → get_elem? authors j ≢ some author))
            ⊎ ((i : ℕ) × (position d author (suc index) authors ≡ some (suc index + i))
                × IsFirst author authors i)
          → ((ite t (some index) (position d author (suc index) authors) ≡ none)
              × ((j : ℕ) → get_elem? (a ∷ authors) j ≢ some author))
            ⊎ ((i : ℕ) × (ite t (some index) (position d author (suc index) authors)
                  ≡ some (index + i))
                × IsFirst author (a ∷ authors) i)
      go (yes p) rest = inr (0, ap some (omega arith), (ap some p, λ j below. ground arith))
      go (no n) (inl (missing, never)) = inl (missing, missing_here)
        where
          missing_here : (j : ℕ) → get_elem? (a ∷ authors) j ≢ some author
          missing_here zero e = ground (arith, n, e)
          missing_here (suc j) e = never j e
      go (no n) (inr (i, found, first)) =
          inr (suc i, ground (arith, found), IsFirst-cons author a authors i n first)

  -- The index of an author is the first one at which it stands, if there is one.
  pub get_author_index_cases :
      (e : RoundRobinAnchorElection A) (author : A)
      → ((get_author_index d e author ≡ none) × ((j : ℕ) → get_elem? e.authors j ≢ some author))
        ⊎ ((i : ℕ) × (get_author_index d e author ≡ some i) × IsFirst author e.authors i)
  unfolding get_author_index
  get_author_index_cases e author = elim (position_cases author 0 e.authors) [
    | inl missing ↦ inl missing
    | inr (i, found, first) ↦ inr (i, ground (arith, found), first)
  ]

  -- Without authors the anchor of every round panics; otherwise one author, that with the index 0,
  -- is the anchor of every round.
  pub round_robin_anchor_cases :
      (e : RoundRobinAnchorElection A)
      → ((round : ℕ) → round_robin_anchor e round ≡ panic)
        ⊎ ((a : A) × (get_author_index d e a ≡ some 0)
            × ((round : ℕ) → round_robin_anchor e round ≡ ok a))
  unfolding round_robin_anchor get_author_index
  round_robin_anchor_cases e = go e.authors refl
    where
      go :
          (authors : List A)
          → e.authors ≡ authors
          → ((round : ℕ) → round_robin_anchor e round ≡ panic)
            ⊎ ((a : A) × (get_author_index d e a ≡ some 0)
                × ((round : ℕ) → round_robin_anchor e round ≡ ok a))
      go [] h = inl (λ round. ground arith)
      go (a ∷ authors) h = inr (a, ground arith, λ round. ground arith)
