-- ===== src/Proposer/Reputation/Scores.antt =====
-- The reputations over a history (consensus-core/src/liveness/proposer.rs).
use aptosbft.Common.{◌≡◌, refl, ite, List, [], ◌∷◌, map, arith, ap, ◌∙◌, subst, sym}
use aptosbft.Common.Map.{get, insert, Map, get-insert}
use aptosbft.Proposer.Reputation.{
  Scale, IsLawful, ReputationTracker, or_default, collect, new, get_reputation, update_reputation,
  record_success, record_failure, reset,
}

pub data Call (A : Type 0) : Type 0 where
  succeeds : A → Call A
  fails : A → Call A
  resets : Call A

-- The abstract score of an author: a number that moves with the author's own calls alone.
abbrev pub score : {A : Type 0} (S : Scale) → Discrete A → S.F64 → A → S.F64 → List (Call A) → S.F64
score S d default a x [] = x
score S d default a x (succeeds b ∷ calls) =
    score S d default a (ite (d b a) (S.clamp (S.plus x S.hundredth)) x) calls
score S d default a x (fails b ∷ calls) =
    score S d default a (ite (d b a) (S.clamp (S.plus x S.minus_tenth)) x) calls
score S d default a x (resets ∷ calls) = score S d default a default calls

-- Between the bounds of the clamp.
abbrev pub InUnit : (S : Scale) → S.F64 → Type 0
InUnit S x = S.Le S.zero_score x × S.Le x S.one_score

ite-InUnit :
    {P : Type 0} (S : Scale) (t : Dec P) (x y : S.F64)
    → InUnit S x
    → InUnit S y
    → InUnit S (ite t x y)
ite-InUnit S (yes p) x y hx hy = hx
ite-InUnit S (no n) x y hx hy = hy

module _ {A V : Type 0} (d : Discrete A) where
  -- A map that holds nothing but one value.
  or_default-map :
      (a : A) (default : V) (m : Map A V)
      → or_default (get d a (map (λ e. (e.0, default)) m)) default ≡ default
  unfolding get
  or_default-map a default [] = refl
  or_default-map a default ((b, v) ∷ m) = ground (arith, or_default-map a default m)

  or_default-collect :
      (a : A) (default : V) (vs : List A) (m : Map A V)
      → or_default (get d a m) default ≡ default
      → or_default (get d a (collect d default vs m)) default ≡ default
  unfolding collect
  or_default-collect a default [] m h = h
  or_default-collect a default (v ∷ vs) m h =
      or_default-collect a default vs (insert d v default m)
        (ground (arith, get-insert d v a default m, h))

module _ {S : Scale} {A : Type 0} (d : Discrete A) where
  abbrev pub step : ReputationTracker S A → Call A → ReputationTracker S A
  step t (succeeds a) = record_success d t a
  step t (fails a) = record_failure d t a
  step t resets = reset t

  abbrev pub run : ReputationTracker S A → List (Call A) → ReputationTracker S A
  run t [] = t
  run t (call ∷ calls) = run (step t call) calls

  get-update_reputation :
      (t : ReputationTracker S A) (a b : A) (delta : S.F64)
      → get_reputation d (update_reputation d t b delta) a
        ≡ ite (d b a) (S.clamp (S.plus (get_reputation d t a) delta)) (get_reputation d t a)
  unfolding get_reputation update_reputation
  get-update_reputation t a b delta = ground (
    arith,
    get-insert d b a
        (S.clamp (S.plus (or_default (get d b t.reputations) t.default_reputation) delta))
        t.reputations,
  )

  get-reset :
      (t : ReputationTracker S A) (a : A) → get_reputation d (reset t) a ≡ t.default_reputation
  unfolding get_reputation reset
  get-reset t a = or_default-map d a t.default_reputation t.reputations

  get-run :
      (t : ReputationTracker S A) (a : A) (calls : List (Call A))
      → get_reputation d (run t calls) a
        ≡ score S d t.default_reputation a (get_reputation d t a) calls
  unfolding record_success record_failure reset
  get-run t a [] = refl
  get-run t a (succeeds b ∷ calls) =
      get-run (record_success d t b) a calls
      ∙ ap (λ x. score S d t.default_reputation a x calls) (get-update_reputation t a b S.hundredth)
  get-run t a (fails b ∷ calls) =
      get-run (record_failure d t b) a calls
      ∙ ap (λ x. score S d t.default_reputation a x calls)
          (get-update_reputation t a b S.minus_tenth)
  get-run t a (resets ∷ calls) =
      get-run (reset t) a calls ∙ ap (λ x. score S d t.default_reputation a x calls) (get-reset t a)

  score-InUnit :
      (default : S.F64) (a : A) (x : S.F64) (calls : List (Call A))
      → IsLawful S
      → InUnit S default
      → InUnit S x
      → InUnit S (score S d default a x calls)
  score-InUnit default a x [] L hd h = h
  score-InUnit default a x (succeeds b ∷ calls) L hd h =
      score-InUnit default a (ite (d b a) (S.clamp (S.plus x S.hundredth)) x) calls L hd (
        ite-InUnit S (d b a) (S.clamp (S.plus x S.hundredth)) x
          (L.clamp-range (S.plus x S.hundredth) (L.plus_hundredth x h.0 h.1)) h)
  score-InUnit default a x (fails b ∷ calls) L hd h =
      score-InUnit default a (ite (d b a) (S.clamp (S.plus x S.minus_tenth)) x) calls L hd (
        ite-InUnit S (d b a) (S.clamp (S.plus x S.minus_tenth)) x
          (L.clamp-range (S.plus x S.minus_tenth) (L.plus_minus_tenth x h.0 h.1)) h)
  score-InUnit default a x (resets ∷ calls) L hd h = score-InUnit default a default calls L hd hd

module _ (S : Scale) {A : Type 0} (d : Discrete A) where
  -- After any history of a new tracker, the reputation of an author is that of the abstract score,
  -- which starts from the default, moves by the clamped constants at the author's own successes and
  -- failures alone, and goes back to the default at a reset, whether or not the author is one of
  -- the validators.
  pub get_reputation-run :
      (validators : List A) (default : S.F64) (a : A) (calls : List (Call A))
      → get_reputation d (run d (new {S = S} d validators default) calls) a
        ≡ score S d default a default calls
  unfolding new get_reputation get
  get_reputation-run validators default a calls =
      get-run d (new {S = S} d validators default) a calls
      ∙ ap (λ x. score S d default a x calls) (or_default-collect d a default validators [] refl)

  -- With lawful floating point numbers and a default between 0 and 1, every reputation after any
  -- history of a new tracker is between 0 and 1.
  pub get_reputation-InUnit :
      (validators : List A) (default : S.F64) (a : A) (calls : List (Call A))
      → IsLawful S
      → InUnit S default
      → InUnit S (get_reputation d (run d (new {S = S} d validators default) calls) a)
  get_reputation-InUnit validators default a calls L h =
      subst (InUnit S) (sym (get_reputation-run validators default a calls))
        (score-InUnit d default a default calls L h h)
