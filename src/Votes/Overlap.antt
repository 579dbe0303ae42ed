-- ===== src/Votes/Overlap.antt =====
-- Two quorums of the pending votes (consensus-core/src/votes/pending_votes.rs) under the mock set of
-- validators (consensus-core/src/testing/mock_validator.rs).
use aptosbft.Common.{
  ℕ, ◌+◌, ◌≤◌, ◌≡◌, ◌⊎◌, inl, refl, Bool, true, false, ite, Option, none, some, List, [], ◌∷◌,
  arith, ℕ_discrete, sum, ◌<◌, ◌*◌, ◌&&◌,
}
use aptosbft.Common.Map.{
  Map, get, insert, contains_key, get-insert, get-nil, IsDistinct, keys, values,
}
use aptosbft.Traits.{power_of}
use aptosbft.Mock.ValidatorSet.{MockValidator, verifier, new, insert_all, get_voting_power}
use aptosbft.Mock.ValidatorSet.Laws.{power_in, verifier-IsLawful, quorum_intersection}
use aptosbft.Votes.{PendingVotes, add_vote, quorum_completed, votes_at, new_aggregator, key_of}
use aptosbft.Crypto.{has_signed, signers, collect}
use aptosbft.Mock.{mock, MockVote}
use aptosbft.Crypto.Signers.{wrote, collect-quorum}
use aptosbft.Votes.Quorum.{quorum_completed_iff}

abbrev is_id : ℕ → ℕ → Bool
is_id k x = ite (ℕ_discrete k x) true false

-- A validator of the map stands in the list, or stood there before.
get-insert_all :
    (id : ℕ) (v : MockValidator) (m : Map ℕ MockValidator) (vs : List MockValidator)
    → get ℕ_discrete id (insert_all m vs) ≡ some v
    → (get ℕ_discrete id m ≡ some v) ⊎ (v.voting_power ≤ power_in (is_id id) vs)
unfolding insert_all
get-insert_all id v m [] h = inl h
get-insert_all id v m (w ∷ vs) h = ground (
  arith,
  get-insert ℕ_discrete w.id id w m,
  get-insert_all id v (insert ℕ_discrete w.id w m) vs h,
)

module _ (vs : List MockValidator) where
  power_of-power_in : (id : ℕ) → power_of (verifier (new vs)) id ≤ power_in (is_id id) vs
  unfolding new get_voting_power
  power_of-power_in id = go (get ℕ_discrete id (insert_all [] vs)) refl
    where
      go :
          (found : Option MockValidator)
          → get ℕ_discrete id (insert_all [] vs) ≡ found
          → power_of (verifier (new vs)) id ≤ power_in (is_id id) vs
      go none e = ground arith
      go (some v) e =
          ground (arith, e, get-insert_all id v [] vs e, get-nil {V = MockValidator} ℕ_discrete id)

-- The joint power of a key and of the keys of a map where it is not.
power_in_split :
    {V : Type 0} (k : ℕ) (m : Map ℕ V) (vs : List MockValidator)
    → get ℕ_discrete k m ≡ none
    → power_in (λ x. ite (ℕ_discrete k x) true (contains_key ℕ_discrete x m)) vs
      ≡ power_in (is_id k) vs + power_in (λ x. contains_key ℕ_discrete x m) vs
unfolding contains_key
power_in_split k m [] h = refl
power_in_split k m (v ∷ vs) h = ground (arith, power_in_split k m vs h, h)

power_in_mono :
    (a b : ℕ → Bool) (vs : List MockValidator)
    → ((x : ℕ) → a x ≡ true → b x ≡ true)
    → power_in a vs ≤ power_in b vs
power_in_mono a b [] h = omega arith
power_in_mono a b (v ∷ vs) h = ground (arith, power_in_mono a b vs h, h v.id)

-- Distinct keys have at most the joint power of the validators with these ids.
sum-keys-power_in :
    {V : Type 0} (vs : List MockValidator) (m : Map ℕ V)
    → IsDistinct ℕ_discrete m
    → sum (power_of (verifier (new vs))) (keys m) ≤ power_in (λ x. contains_key ℕ_discrete x m) vs
unfolding contains_key
sum-keys-power_in vs [] h = omega arith
sum-keys-power_in vs ((k, w) ∷ m) h =
    let wider =
      power_in_mono (λ x. ite (ℕ_discrete k x) true (contains_key ℕ_discrete x m))
        (λ x. contains_key ℕ_discrete x ((k, w) ∷ m)) vs (λ x e. ground arith) in
    omega
      (arith, sum-keys-power_in vs m h.1, power_of-power_in vs k, power_in_split k m vs h.0, wider)

-- The validators that wrote votes which hold the quorum reach the threshold.
collect-power_in :
    (vs : List MockValidator) (votes : List MockVote)
    → (new vs).quorum_threshold
      ≤ sum
          (power_of (verifier (new vs)))
          (signers (collect (verifier (new vs)) (new_aggregator mock) votes))
    → (new vs).quorum_threshold ≤ power_in (λ id. wrote (verifier (new vs)) id votes) vs
unfolding has_signed
collect-power_in vs votes h =
    let V = verifier (new vs) in
    let a = collect V (new_aggregator mock) votes in
    let (_, distinct, _, signed) = collect-quorum V (verifier-IsLawful (new vs)) votes in
    let wider =
      power_in_mono (λ x. contains_key ℕ_discrete x a.signatures) (λ x. wrote V x votes) vs
        (λ x e. ground (arith, signed x, e)) in
    omega (arith, h, sum-keys-power_in vs a.signatures distinct, wider)

-- The votes for the block of a vote, with it.
abbrev pub voted : List MockValidator → PendingVotes mock → MockVote → ℕ → Bool
voted vs p v id =
    wrote (verifier (new vs)) id
      (values (votes_at (add_vote p v (verifier (new vs))).0 (key_of mock v)))

-- Under the mock set of validators, where two votes each complete a quorum, in the same or in
-- different pending votes, the validators that wrote votes for both blocks hold more than a third
-- of the total power.
pub quorums_overlap :
    (vs : List MockValidator) (p q : PendingVotes mock) (v w : MockVote)
    → (add_vote p v (verifier (new vs))).1 ≡ quorum_completed
    → (add_vote q w (verifier (new vs))).1 ≡ quorum_completed
    → (new vs).total_voting_power < 3 * power_in (λ id. voted vs p v id && voted vs q w id) vs
quorums_overlap vs p q v w hp hq =
    let V = verifier (new vs) in
    let lawful = verifier-IsLawful (new vs) in
    quorum_intersection vs (voted vs p v) (voted vs q w)
      (collect-power_in vs (values (votes_at (add_vote p v V).0 (key_of mock v)))
        ((quorum_completed_iff V lawful p v).0 hp).2)
      (collect-power_in vs (values (votes_at (add_vote q w V).0 (key_of mock w)))
        ((quorum_completed_iff V lawful q w).0 hq).2)
