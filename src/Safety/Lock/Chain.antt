-- ===== src/Safety/Lock/Chain.antt =====
-- Chains of accepted proposals (consensus-core/src/safety_rules/two_chain.rs).
use aptosbft.Common.{
  ℕ, ◌≤◌, ◌<◌, ◌≡◌, refl, none, some, ok, List, [], ◌∷◌, ◌++◌, ◌∙◌, arith, ap, ◌⊎◌, inl, inr,
}
use aptosbft.Safety.Rules.{safe_to_vote_impl}
use aptosbft.Safety.Voting.{Rounds, round_of, hqc_of}

-- A proposal: its round, that of its certificate, and those of its timeout certificate, if any.
pub record Link : Type 0 where
  pub block : ℕ
  pub qc : ℕ
  pub tc : Rounds

-- Proposals from a round down to another: each is accepted, and its certificate's round is the
-- round of the next.
abbrev pub Descends : ℕ → List Link → ℕ → Type 0
Descends top [] bottom = top ≡ bottom
Descends top (l ∷ ls) bottom =
    (l.block ≡ top)
    × (safe_to_vote_impl l.block l.qc (round_of l.tc) (hqc_of l.tc) ≡ ok tt)
    × Descends l.qc ls bottom

-- The timeout certificate names a certificate of the locked round or a later one.
abbrev pub Keeps : ℕ → Rounds → Type 0
Keeps lock none = Unit {0}
Keeps lock (some (r, h)) = lock ≤ h

-- It does so in every proposal above the locked round.
abbrev pub KeepsLock : ℕ → List Link → Type 0
KeepsLock lock [] = Unit {0}
KeepsLock lock (l ∷ ls) = (lock < l.block → Keeps lock l.tc) × KeepsLock lock ls

pub accepted_above :
    (lock block qc : ℕ) (tc : Rounds)
    → lock < block
    → Keeps lock tc
    → safe_to_vote_impl block qc (round_of tc) (hqc_of tc) ≡ ok tt
    → lock ≤ qc
unfolding safe_to_vote_impl
accepted_above lock block qc none below keeps accepted = ground arith
accepted_above lock block qc (some (r, h)) below keeps accepted = ground arith

pub top_cases : (lock top : ℕ) → lock ≤ top → (top ≡ lock) ⊎ (lock < top)
top_cases lock top h = ground arith

-- In a chain of proposals that safe_to_vote_impl accepts, each certified in the round of the next:
-- where the timeout certificates above a locked round name a certificate of that round or a later
-- one, a chain from at or above the locked round to at or below it passes through the locked round.
pub passes_through_lock :
    (lock top bottom : ℕ) (ls : List Link)
    → bottom ≤ lock
    → lock ≤ top
    → KeepsLock lock ls
    → Descends top ls bottom
    → (above : List Link) × (below : List Link) × (ls ≡ above ++ below)
      × Descends top above lock
      × Descends lock below bottom
passes_through_lock lock top bottom [] low high keeps same =
    ([], [], refl, omega arith, omega arith)
passes_through_lock lock top bottom (l ∷ ls) low high (keeps, later) (here, accepted, rest) =
    elim (top_cases lock top high) [
      | inl at ↦ ([], l ∷ ls, refl, at, (here ∙ at, accepted, rest))
      | inr above ↦
          let (upper, lower, split, from, to) =
            passes_through_lock lock l.qc bottom ls low
              (accepted_above lock l.block l.qc l.tc (omega arith) (keeps (omega arith)) accepted)
              later rest in
          (l ∷ upper, lower, ap (λ xs. l ∷ xs) split, (here, accepted, from), to)
    ]
