-- ===== src/Safety/Lock/Agreement.antt =====
-- Agreement of two chains of certified proposals: the checks of
-- consensus-core/src/safety_rules/two_chain.rs, followed by validators of the mock set
-- (consensus-core/src/testing/mock_validator.rs).
use aptosbft.Common.{
  ℕ, ◌*◌, ◌≤◌, ◌<◌, ◌≡◌, refl, Bool, true, false, Option, none, some, ok, List, [], ◌∷◌, arith, inl,
  inr,
}
use mathlib.Core.List.{Memᴰ}
use aptosbft.Traits.{Traits}
use aptosbft.Timeout.{TwoChainTimeoutCertificate}
use aptosbft.Mock.ValidatorSet.{MockValidator, new}
use aptosbft.Mock.ValidatorSet.Laws.{power_in}
use aptosbft.Safety.Rules.{TwoChainSafetyRules, safe_to_vote_impl, safe_to_timeout}
use aptosbft.Safety.Voting.{Rounds, round_of, hqc_of}
use aptosbft.Safety.History.{Input, certified, run}
use aptosbft.Safety.Lock.{sound-in_quorums, safe_to_timeout-run}
use aptosbft.Safety.Lock.Chain.{accepted_above, top_cases, Keeps}

-- A proposal: its id and that of its parent, its round, that of its certificate, and those of its
-- timeout certificate, if any.
pub record Proposal : Type 0 where
  pub id : ℕ
  pub parent : ℕ
  pub round : ℕ
  pub qc_round : ℕ
  pub tc : Rounds

module _ (T : Traits) (vs : List MockValidator) (faulty : ℕ → Bool) (saw : ℕ → Bool)
    (voted : ℕ → Proposal → Bool) (rules : ℕ → TwoChainSafetyRules) (qc : T.QuorumCert) where
  abbrev pub IsQuorum : (ℕ → Bool) → Type 0
  IsQuorum signers = (new vs).quorum_threshold ≤ power_in signers vs

  -- A quorum signed the timeout of a round. Each sound signer that observed the certificate was
  -- allowed to by its rules, with a certificate of a round up to the highest one.
  pub record IsTimedOut (round highest : ℕ) : Type 0 where
    pub signed : ℕ → Bool
    pub told : ℕ → List (Input T)
    pub hqc : ℕ → ℕ
    pub earlier : ℕ → Option (TwoChainTimeoutCertificate T)
    pub quorum : IsQuorum signed
    pub allowed :
        (v : ℕ)
        → saw v ≡ true
        → signed v ≡ true
        → faulty v ≡ false
        → (hqc v ≤ highest)
          × (safe_to_timeout T (run T (rules v) (certified qc ∷ told v)) round (hqc v) (earlier v)
              ≡ ok tt)

  abbrev HasTimeout : Rounds → Type 0
  HasTimeout none = Unit {0}
  HasTimeout (some (round, highest)) = IsTimedOut round highest

  -- Proposals, each of which names the next as its parent and its certificate's round as its
  -- round. From the observed round on, each has the votes of a quorum, and above it, its timeout
  -- certificate, if it has one, was signed.
  abbrev pub IsChain : Proposal → List Proposal → Type 0
  IsChain a [] = T.qc_round qc ≤ a.round → IsQuorum (λ v. voted v a)
  IsChain a (b ∷ bs) =
      (T.qc_round qc ≤ a.round → IsQuorum (λ v. voted v a))
      × (T.qc_round qc < a.round → HasTimeout a.tc)
      × (a.parent ≡ b.id)
      × (a.qc_round ≡ b.round)
      × IsChain b bs

  abbrev pub last_of : Proposal → List Proposal → Proposal
  last_of a [] = a
  last_of a (b ∷ bs) = last_of b bs

  HasTimeout-Keeps :
      3 * power_in faulty vs ≤ (new vs).total_voting_power
      → IsQuorum saw
      → (tc : Rounds) → HasTimeout tc
      → Keeps (T.qc_round qc) tc
  HasTimeout-Keeps few seen none t = tt
  HasTimeout-Keeps few seen (some (round, highest)) t =
      let (v, saw_it, signed, sound) = sound-in_quorums vs faulty saw t.signed few seen t.quorum in
      let (below, allowed) = t.allowed v saw_it signed sound in
      omega (
        arith,
        below,
        safe_to_timeout-run T (rules v) qc (t.told v) round (t.hqc v) (t.earlier v) allowed,
      )

  -- A chain passes through the observed round by a proposal that has the votes of a quorum.
  chain_at_lock :
      3 * power_in faulty vs ≤ (new vs).total_voting_power
      → IsQuorum saw
      → ((v : ℕ) (a : Proposal)
          → faulty v ≡ false
          → voted v a ≡ true
          → safe_to_vote_impl a.round a.qc_round (round_of a.tc) (hqc_of a.tc) ≡ ok tt)
      → (a : Proposal) (older_a : List Proposal) → IsChain a older_a
      → T.qc_round qc ≤ a.round
      → (last_of a older_a).round ≤ T.qc_round qc
      → (x : Proposal) × Memᴰ x (a ∷ older_a)
        × (x.round ≡ T.qc_round qc)
        × IsQuorum (λ v. voted v x)
  chain_at_lock few seen safe a [] chain high low = (a, Memᴰ.head refl, omega arith, chain high)
  chain_at_lock few seen safe a (b ∷ bs) (quorum_a, timeout, _, same, rest) high low =
      elim (top_cases (T.qc_round qc) a.round high) [
        | inl at ↦ (a, Memᴰ.head refl, at, quorum_a high)
        | inr above ↦
            let (v, voted_it, _, sound) =
              sound-in_quorums vs faulty (λ v. voted v a) (λ v. voted v a) few (quorum_a high)
                (quorum_a high) in
            let next =
              accepted_above (T.qc_round qc) a.round a.qc_round a.tc above
                (HasTimeout-Keeps few seen a.tc (timeout above)) (safe v a sound voted_it) in
            let (x, there, at, quorum) =
              chain_at_lock few seen safe b bs rest (omega (arith, next, same)) low in
            (x, Memᴰ.tail there, at, quorum)
      ]

  -- Let the faulty validators hold at most a third of the power and let validators with a quorum
  -- observe a certificate. Let each sound validator vote only as safe_to_vote_impl allows and for
  -- one id in a round, and let the timeout certificates above the observed round have a quorum of
  -- signers, of which the sound ones that observed the certificate were allowed by safe_to_timeout.
  -- Then two chains of proposals with the votes of a quorum, from at or above the observed round
  -- down to it or below, contain proposals of the observed round with the same id.
  pub chains_agree :
      3 * power_in faulty vs ≤ (new vs).total_voting_power
      → IsQuorum saw
      → ((v : ℕ) (a : Proposal)
          → faulty v ≡ false
          → voted v a ≡ true
          → safe_to_vote_impl a.round a.qc_round (round_of a.tc) (hqc_of a.tc) ≡ ok tt)
      → ((v : ℕ) (a b : Proposal)
          → faulty v ≡ false
          → voted v a ≡ true
          → voted v b ≡ true
          → a.round ≡ b.round
          → a.id ≡ b.id)
      → (a b : Proposal) (older_a older_b : List Proposal) → IsChain a older_a
      → IsChain b older_b
      → T.qc_round qc ≤ a.round
      → T.qc_round qc ≤ b.round
      → (last_of a older_a).round ≤ T.qc_round qc
      → (last_of b older_b).round ≤ T.qc_round qc
      → (x y : Proposal) × Memᴰ x (a ∷ older_a)
        × Memᴰ y (b ∷ older_b)
        × (x.round ≡ T.qc_round qc)
        × (y.round ≡ T.qc_round qc)
        × (x.id ≡ y.id)
  chains_agree few seen safe once a b older_a older_b chain_a chain_b high_a high_b low_a low_b =
      let (x, in_a, at_x, quorum_x) = chain_at_lock few seen safe a older_a chain_a high_a low_a in
      let (y, in_b, at_y, quorum_y) = chain_at_lock few seen safe b older_b chain_b high_b low_b in
      let (v, for_x, for_y, sound) =
        sound-in_quorums vs faulty (λ v. voted v x) (λ v. voted v y) few quorum_x quorum_y in
      (x, y, in_a, in_b, at_x, at_y, once v x y sound for_x for_y (omega (arith, at_x, at_y)))
