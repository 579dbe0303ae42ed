-- ===== src/Consensus/Lifecycle.antt =====
-- The states of an instance (consensus-core/src/consensus/mod.rs): start, stop and idleness.
use aptosbft.Common.{
  ◌≡◌, ◌≢◌, refl, ◌⊎◌, inl, inr, ap, ◌∙◌, List, [], ◌∷◌, map, ok, err, arith, subst, sym,
}
use aptosbft.Traits.{Traits}
use aptosbft.Pacemaker.{Floats}
use aptosbft.Consensus.{
  Consensus, ProposerElection, ConsensusState, bootstrapping, running, catching_up, stopping,
  stopped, start, stop, process_proposal, process_vote, process_qc, process_timeout, cannot_start,
  cannot_stop,
}
use aptosbft.Consensus.History.{Message, proposal, vote, qc, timeout, handles, handle, run}

-- The diagram of the states.
infix 40 ◌⟶◌
pub data ◌⟶◌ : ConsensusState → ConsensusState → Type 0 where
  boot : bootstrapping ⟶ running
  restart : stopped ⟶ running
  halt : running ⟶ stopped
  give_up : catching_up ⟶ stopped

module _ {T : Traits} {F : Floats} {PE : ProposerElection} where
  start_from_state :
      (c : Consensus T F PE) (s : ConsensusState)
      → c.state ≡ s
      → ((c.state ⟶ running) × (start c ≡ (record c { state = running }, ok tt)))
        ⊎ ((c.state ≢ bootstrapping)
            × (c.state ≢ stopped)
            × (start c ≡ (c, err (cannot_start c.state))))
  unfolding start
  start_from_state c bootstrapping h = inl (subst (λ s. s ⟶ running) (sym h) boot, ground arith)
  start_from_state c stopped h = inl (subst (λ s. s ⟶ running) (sym h) restart, ground arith)
  start_from_state c running h = inr (ground arith)
  start_from_state c catching_up h = inr (ground arith)
  start_from_state c stopping h = inr (ground arith)

  -- A start follows an edge of the diagram of the states into the running state, or is refused with
  -- the state and changes nothing.
  pub start_cases :
      (c : Consensus T F PE)
      → ((c.state ⟶ running) × (start c ≡ (record c { state = running }, ok tt)))
        ⊎ ((c.state ≢ bootstrapping)
            × (c.state ≢ stopped)
            × (start c ≡ (c, err (cannot_start c.state))))
  start_cases c = start_from_state c c.state refl

  stop_from_state :
      (c : Consensus T F PE) (s : ConsensusState)
      → c.state ≡ s
      → ((c.state ⟶ stopped) × (stop c ≡ (record c { state = stopped }, ok tt)))
        ⊎ ((c.state ≢ running)
            × (c.state ≢ catching_up)
            × (stop c ≡ (c, err (cannot_stop c.state))))
  unfolding stop
  stop_from_state c running h = inl (subst (λ s. s ⟶ stopped) (sym h) halt, ground arith)
  stop_from_state c catching_up h = inl (subst (λ s. s ⟶ stopped) (sym h) give_up, ground arith)
  stop_from_state c bootstrapping h = inr (ground arith)
  stop_from_state c stopping h = inr (ground arith)
  stop_from_state c stopped h = inr (ground arith)

  -- A stop follows an edge of the diagram into the stopped state, or is refused with the state and
  -- changes nothing.
  pub stop_cases :
      (c : Consensus T F PE)
      → ((c.state ⟶ stopped) × (stop c ≡ (record c { state = stopped }, ok tt)))
        ⊎ ((c.state ≢ running)
            × (c.state ≢ catching_up)
            × (stop c ≡ (c, err (cannot_stop c.state))))
  stop_cases c = stop_from_state c c.state refl

  handle-idle : (c : Consensus T F PE) (m : Message T) → c.state ≢ running → handle c m ≡ c
  unfolding process_proposal process_vote process_qc process_timeout
  handle-idle c (proposal b) h = ground arith
  handle-idle c (vote v verifier) h = ground arith
  handle-idle c (qc q) h = ground arith
  handle-idle c (timeout round) h = ground arith

  -- An instance that is not running is unchanged by any messages and timeouts.
  pub run-idle :
      (c : Consensus T F PE) (ms : List (Message T))
      → c.state ≢ running
      → run c (map handles ms) ≡ c
  run-idle c [] h = refl
  run-idle c (m ∷ ms) h = ap (λ d. run d (map handles ms)) (handle-idle c m h) ∙ run-idle c ms h
