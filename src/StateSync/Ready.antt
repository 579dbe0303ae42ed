-- ===== src/StateSync/Ready.antt =====
-- The blocks that are ready (consensus-core/src/consensus/state_sync.rs).
use aptosbft.Common.{
  if◌then◌else◌, ltb, leb, ◌&&◌, ℕ, zero, suc, ◌+◌, ◌<◌, ◌≡◌, u64, u64_max, Option-cases, inl, inr,
  subst, ◌∙◌, none, some, List, [], ◌∷◌, length, arith, ℕ_discrete, ap,
}
use aptosbft.Common.Map.{Map, get, remove, length-remove, get-remove, IsDistinct, remove-IsDistinct}
use aptosbft.Traits.{Traits}
use aptosbft.StateSync.{StateSync, ready_from, ready_blocks}

-- Every received block is kept under its own round, once.
abbrev pub IsFiled : (T : Traits) → Map ℕ T.Block → Type 0
IsFiled T m =
    IsDistinct ℕ_discrete m
    × ((round : ℕ) (b : T.Block) → get ℕ_discrete round m ≡ some b → T.block_round b ≡ round)

-- The blocks have the rounds from one on, without a gap.
abbrev pub Consecutive : (T : Traits) → ℕ → List T.Block → Type 0
Consecutive T round [] = Unit {0}
Consecutive T round (b ∷ bs) = (T.block_round b ≡ round) × Consecutive T (round + 1) bs

-- The blocks are the ones that a map keeps from a round on, all of them up to the first round that
-- it does not keep.
abbrev pub Follows : (T : Traits) → Map ℕ T.Block → ℕ → List T.Block → Type 0
Follows T m round [] = get ℕ_discrete round m ≡ none
Follows T m round (b ∷ bs) = (get ℕ_discrete round m ≡ some b) × Follows T m (round + 1) bs

-- The removal of an earlier round does not change what follows.
Follows-remove :
    (T : Traits) (m : Map ℕ T.Block) (removed round : ℕ) (bs : List T.Block)
    → IsDistinct ℕ_discrete m
    → removed < round
    → Follows T (remove ℕ_discrete removed m) round bs
    → Follows T m round bs
Follows-remove T m removed round [] d l h = ground (arith, get-remove ℕ_discrete removed round m d)
Follows-remove T m removed round (b ∷ bs) d l (h, hs) = (
  ground (arith, get-remove ℕ_discrete removed round m d),
  Follows-remove T m removed (round + 1) bs d (omega arith) hs,
)

module _ {T : Traits} where
  -- What the loop returns from a state: the kept blocks of the rounds that follow the current one,
  -- all of them up to the first that is missing. The current round is then that of the last, their
  -- rounds are no longer kept, every other round keeps what it kept, and nothing else changes.
  pub IsReady : StateSync T → StateSync T × List T.Block → Type 0
  IsReady s (s', bs) =
      Follows T s.received_blocks (s.current_round + 1) bs
      × Consecutive T (s.current_round + 1) bs
      × (s' ≡ record s {
        received_blocks = s'.received_blocks;
        current_round = s.current_round + length bs;
      })
      × (length s'.received_blocks + length bs ≡ length s.received_blocks)
      × ((round : ℕ)
          → get ℕ_discrete round s'.received_blocks ≡ (
              if ltb s.current_round round && leb round (s.current_round + length bs)
              then none
              else get ℕ_discrete round s.received_blocks))

  -- The state after a round of the loop.
  abbrev pub after : StateSync T → StateSync T
  after s = record s {
    received_blocks = remove ℕ_discrete (u64 (s.current_round + 1)) s.received_blocks;
    current_round = u64 (s.current_round + 1);
  }

  Runs : ℕ → StateSync T → Type 0
  Runs fuel s = (r : StateSync T × List T.Block) × (ready_from fuel s ≡ some r) × IsReady s r

  pub after-IsFiled :
      (s : StateSync T) → IsFiled T s.received_blocks → IsFiled T (after s).received_blocks
  after-IsFiled s f =
      let next_round = u64 (s.current_round + 1) in
      (
        remove-IsDistinct ℕ_discrete next_round s.received_blocks f.0,
        λ round b h.
            ground
              (arith, get-remove ℕ_discrete next_round round s.received_blocks f.0, f.1 round b),
      )

  after-Runs :
      (fuel : ℕ) (s : StateSync T) (block : T.Block)
      → s.current_round + length s.received_blocks < u64_max
      → IsFiled T s.received_blocks
      → get ℕ_discrete (u64 (s.current_round + 1)) s.received_blocks ≡ some block
      → Runs fuel (after s)
      → Runs (suc fuel) s
  unfolding Runs ready_from IsReady
  after-Runs fuel s block b (distinct, filed) e
        ((s', bs), ran, (follows, consecutive, now, count, kept)) =
      let next : u64 (s.current_round + 1) ≡ s.current_round + 1 = ground arith in
      let fewer = length-remove ℕ_discrete (u64 (s.current_round + 1)) s.received_blocks e in
      (
        (s', block ∷ bs),
        ground arith,
        (
          (
            subst (λ n. get ℕ_discrete n s.received_blocks ≡ some block) next e,
            Follows-remove T s.received_blocks (u64 (s.current_round + 1)) (s.current_round + 1 + 1)
                bs distinct (omega arith)
                (subst (λ n. Follows T (after s).received_blocks (n + 1) bs) next follows),
          ),
          (
            filed (u64 (s.current_round + 1)) block e ∙ next,
            subst (λ n. Consecutive T (n + 1) bs) next consecutive,
          ),
          now
              ∙ ap (λ n. record s { received_blocks = s'.received_blocks; current_round = n })
                  (let sum : u64 (s.current_round + 1) + length bs
                        ≡ s.current_round + suc (length bs) =
                      omega (arith, next) in
                    sum),
          omega arith,
          λ round. ground (
            arith,
            kept round,
            get-remove ℕ_discrete (u64 (s.current_round + 1)) round s.received_blocks distinct,
            e,
          ),
        ),
      )

  ready_from-IsReady :
      (fuel : ℕ) (s : StateSync T)
      → length s.received_blocks < fuel
      → s.current_round + length s.received_blocks < u64_max
      → IsFiled T s.received_blocks
      → Runs fuel s
  unfolding Runs ready_from IsReady
  ready_from-IsReady zero s h b f = absurd (omega arith)
  ready_from-IsReady (suc fuel) s h b f =
      elim (Option-cases (get ℕ_discrete (u64 (s.current_round + 1)) s.received_blocks)) [
        | inl e ↦ (
          (s, []),
          ground arith,
          (
            subst (λ n. get ℕ_discrete n s.received_blocks ≡ none) (ground arith) e,
            tt,
            ap (λ n. record s { current_round = n })
                (let same : s.current_round ≡ s.current_round + 0 = omega arith in same),
            omega arith,
            λ round. ground arith,
          ),
        )
        | inr (block, e) ↦
            let fewer = length-remove ℕ_discrete (u64 (s.current_round + 1)) s.received_blocks e in
            after-Runs fuel s block b f e (
              ready_from-IsReady fuel (after s) (omega arith) (ground (arith, fewer))
                (after-IsFiled s f))
      ]

  -- Where the rounds are below the greatest `u64` and the blocks filed, the loop ends with what it
  -- should.
  pub ready_blocks-IsReady :
      (s : StateSync T)
      → s.current_round + length s.received_blocks < u64_max
      → IsFiled T s.received_blocks
      → IsReady s (ready_blocks s)
  unfolding Runs ready_blocks
  ready_blocks-IsReady s b f =
      let (r, ran, ready) = ready_from-IsReady (length s.received_blocks + 1) s (omega arith) b f in
      subst (IsReady s) (ground arith) ready
