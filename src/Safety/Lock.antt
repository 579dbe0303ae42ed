-- ===== src/Safety/Lock.antt =====
-- The lock of a certified round (consensus-core/src/safety_rules/two_chain.rs) over the mock set of
-- validators (consensus-core/src/testing/mock_validator.rs).
pub mod Chain
pub mod Agreement
use aptosbft.Common.{
  refl, ℕ, ◌*◌, ◌≤◌, ◌<◌, ◌≡◌, Bool, true, false, ◌&&◌, Option, some, ok, List, [], ◌∷◌, arith,
  highest-le, max,
}
use aptosbft.Traits.{Traits}
use aptosbft.Timeout.{TwoChainTimeoutCertificate}
use aptosbft.Mock.ValidatorSet.{MockValidator, new}
use aptosbft.Mock.ValidatorSet.Laws.{power_in, quorum_intersection}
use aptosbft.Safety.Rules.{
  TwoChainSafetyRules, safe_to_vote_impl, safe_to_timeout, safe_to_timeout_impl,
}
use aptosbft.Safety.History.{Input, certified, run, run-highest, qc_round_of}

-- Where one set has more power than another, a validator of it is not in the other.
power_in-apart :
    (a b : ℕ → Bool) (vs : List MockValidator)
    → power_in b vs < power_in a vs
    → (id : ℕ) × (a id ≡ true) × (b id ≡ false)
power_in-apart a b [] h = absurd (omega (arith, h))
power_in-apart a b (v ∷ vs) h = go (a v.id) refl (b v.id) refl (power_in-apart a b vs)
  where
    go :
        (x : Bool)
        → a v.id ≡ x
        → (y : Bool) → b v.id ≡ y
        → (power_in b vs < power_in a vs → (id : ℕ) × (a id ≡ true) × (b id ≡ false))
        → (id : ℕ) × (a id ≡ true) × (b id ≡ false)
    go true ea false eb rest = (v.id, ea, eb)
    go true ea true eb rest = rest (ground (arith, h, ea, eb))
    go false ea y eb rest = rest (ground (arith, h, ea, eb))

-- Two quorums share a sound validator.
pub sound-in_quorums :
    (vs : List MockValidator) (faulty a b : ℕ → Bool)
    → 3 * power_in faulty vs ≤ (new vs).total_voting_power
    → (new vs).quorum_threshold ≤ power_in a vs
    → (new vs).quorum_threshold ≤ power_in b vs
    → (id : ℕ) × (a id ≡ true) × (b id ≡ true) × (faulty id ≡ false)
sound-in_quorums vs faulty a b few ha hb =
    let (id, both, sound) =
      power_in-apart (λ id. a id && b id) faulty vs
        (omega (arith, few, quorum_intersection vs a b ha hb)) in
    (id, ground (arith, both), ground (arith, both), sound)

module _ (T : Traits) where
  pub safe_to_timeout-above :
      (r : TwoChainSafetyRules) (round hqc : ℕ) (tc : Option (TwoChainTimeoutCertificate T))
      → safe_to_timeout T r round hqc tc ≡ ok tt
      → r.state.one_chain_round ≤ hqc
  unfolding safe_to_timeout safe_to_timeout_impl
  safe_to_timeout-above r round hqc tc h = ground arith

  observed :
      (r : TwoChainSafetyRules) (qc : T.QuorumCert) (is : List (Input T))
      → T.qc_round qc ≤ (run T r (certified qc ∷ is)).state.one_chain_round
  observed r qc is = omega (
    arith,
    (run-highest T r (certified qc ∷ is)).0,
    highest-le (qc_round_of T) (max r.state.one_chain_round (T.qc_round qc)) is,
  )

  -- A timeout that the rules allow after they observed a certificate is not below its round.
  pub safe_to_timeout-run :
      (r : TwoChainSafetyRules) (qc : T.QuorumCert) (is : List (Input T)) (round hqc : ℕ)
      (tc : Option (TwoChainTimeoutCertificate T))
      → safe_to_timeout T (run T r (certified qc ∷ is)) round hqc tc ≡ ok tt
      → T.qc_round qc ≤ hqc
  safe_to_timeout-run r qc is round hqc tc allowed = omega (
    arith,
    safe_to_timeout-above (run T r (certified qc ∷ is)) round hqc tc allowed,
    observed r qc is,
  )

  -- Let the faulty validators hold at most a third of the power, let validators with a quorum
  -- observe a certificate, and let validators with a quorum sign a timeout, the sound ones among
  -- both as safe_to_timeout allows it after whatever else their rules were told. Where the timeout
  -- certificate's highest certificate round is at least those that they signed, it is at least the
  -- round of the observed certificate, and so is the certificate round of every later proposal that
  -- safe_to_vote_impl accepts with this timeout certificate.
  pub timeout_keeps_lock :
      (vs : List MockValidator) (faulty saw timed : ℕ → Bool) (rules : ℕ → TwoChainSafetyRules)
      (told : ℕ → List (Input T)) (qc : T.QuorumCert) (tc : TwoChainTimeoutCertificate T)
      (hqc : ℕ → ℕ) (earlier : ℕ → Option (TwoChainTimeoutCertificate T)) (block block_qc : ℕ)
      → 3 * power_in faulty vs ≤ (new vs).total_voting_power
      → (new vs).quorum_threshold ≤ power_in saw vs
      → (new vs).quorum_threshold ≤ power_in timed vs
      → ((id : ℕ)
          → saw id ≡ true
          → timed id ≡ true
          → faulty id ≡ false
          → (hqc id ≤ tc.hqc_round)
            × (safe_to_timeout T
                  (run T (rules id) (certified qc ∷ told id))
                  tc.round
                  (hqc id)
                  (earlier id)
                ≡ ok tt))
      → T.qc_round qc < block
      → safe_to_vote_impl block block_qc (some tc.round) (some tc.hqc_round) ≡ ok tt
      → (T.qc_round qc ≤ tc.hqc_round) × (T.qc_round qc ≤ block_qc)
  unfolding safe_to_vote_impl
  timeout_keeps_lock vs faulty saw timed rules told qc tc hqc earlier block block_qc few hs ht safe
        later voted =
      let (id, seen, signed, sound) = sound-in_quorums vs faulty saw timed few hs ht in
      let (below, allowed) = safe id seen signed sound in
      let locked : T.qc_round qc ≤ tc.hqc_round = omega (
        arith,
        below,
        safe_to_timeout-run (rules id) qc (told id) tc.round (hqc id) (earlier id) allowed,
      ) in
      (locked, ground (arith, locked, later, voted))
