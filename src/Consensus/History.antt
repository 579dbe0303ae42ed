-- ===== src/Consensus/History.antt =====
-- Histories of calls of a consensus instance (consensus-core/src/consensus/mod.rs).
use aptosbft.Common.{ℕ, List, [], ◌∷◌}
use aptosbft.Traits.{Traits, Verifier}
use aptosbft.Pacemaker.{Floats}
use aptosbft.Consensus.{
  Consensus, ProposerElection, start, stop, process_proposal, process_vote, process_qc,
  process_timeout,
}

-- A message that is handed to the instance, or a timeout of a round.
pub data Message (T : Traits) : Type 0 where
  proposal : T.Block → Message T
  vote : T.Vote → Verifier T → Message T
  qc : T.QuorumCert → Message T
  timeout : ℕ → Message T

pub data Call (T : Traits) : Type 0 where
  starts : Call T
  stops : Call T
  handles : Message T → Call T

module _ {T : Traits} {F : Floats} {PE : ProposerElection} where
  abbrev pub handle : Consensus T F PE → Message T → Consensus T F PE
  handle c (proposal b) = (process_proposal c b).0
  handle c (vote v verifier) = (process_vote c v verifier).0
  handle c (qc q) = (process_qc c q).0
  handle c (timeout round) = (process_timeout c round).0

  abbrev pub step : Consensus T F PE → Call T → Consensus T F PE
  step c starts = (start c).0
  step c stops = (stop c).0
  step c (handles m) = handle c m

  abbrev pub run : Consensus T F PE → List (Call T) → Consensus T F PE
  run c [] = c
  run c (call ∷ calls) = run (step c call) calls
