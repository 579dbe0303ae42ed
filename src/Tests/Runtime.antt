-- ===== src/Tests/Runtime.antt =====
-- The theorems on the runtime and the network at test data.
use aptosbft.Common.{ℕ, ◌≡◌, ◌⊎◌, refl, true, false, List, [], ◌∷◌, map, ok, err, arith, inl}
use aptosbft.Mock.{mock}
use aptosbft.Consensus.{running}
use aptosbft.Consensus.History
use aptosbft.Consensus.Bounds.{IsWithin, run-IsWithin}
use aptosbft.Runtime.{
  ConsensusRuntime, NetworkMessage, ExecutionResult, proposal, quorum_certificate, round_timeout,
  sync_request, new, default_config, process_pending_messages, start, shutdown, already_running,
  runtime_not_running,
}
use aptosbft.Runtime.Queue.{handle_all, process_pending_messages-handle_all}
use aptosbft.Runtime.History.{Call, starts, shuts_down, adds, processes_pending, handles, run}
use aptosbft.Runtime.Lifecycle.{CanStart, run-lifecycle}
use aptosbft.Runtime.Reach.{Follows, run-Follows}
use aptosbft.Network
use aptosbft.Tests.{block, certificate}
use aptosbft.Tests.Instance.{fresh, numbers, election}

abbrev messages : List (NetworkMessage mock)
messages =
    proposal (block 1) ∷ quorum_certificate (certificate 1) ∷ round_timeout 1 ∷ sync_request 4 ∷ []

abbrev loaded : ConsensusRuntime mock numbers election
loaded = record (new fresh default_config) { pending_messages = messages }

process_pending_messages-handle_all_example :
    (xs : List (NetworkMessage mock × ExecutionResult)) × (handle_all loaded messages
      ≡ ((handle_all loaded messages).0, ok xs))
    × (map (λ x. x.0) xs ≡ messages)
    × (process_pending_messages loaded
        ≡ (record ((handle_all loaded messages).0) { pending_messages = [] }, ok xs))
unfolding new
process_pending_messages-handle_all_example = process_pending_messages-handle_all loaded

abbrev calls : List (Call mock)
calls =
    starts
    ∷ adds (quorum_certificate (certificate 1))
    ∷ processes_pending
    ∷ handles (round_timeout 1)
    ∷ shuts_down
    ∷ starts
    ∷ []

run-lifecycle_example :
    let r = run (new fresh default_config) calls in
    ((r.is_running ≡ true)
      × (r.consensus.state ≡ running)
      × (start r ≡ (r, err already_running))
      × ((shutdown r).1 ≡ ok tt))
    ⊎ ((r.is_running ≡ false)
        × CanStart r.consensus
        × (shutdown r ≡ (r, err runtime_not_running))
        × ((start r).1 ≡ ok tt))
run-lifecycle_example = run-lifecycle fresh default_config calls (inl refl)

run-Follows_example :
    Follows (new fresh default_config).consensus (run (new fresh default_config) calls).consensus
run-Follows_example = run-Follows (new fresh default_config) calls

abbrev instance_calls : List (History.Call mock)
instance_calls =
    History.starts
    ∷ History.handles (History.timeout 4)
    ∷ History.handles (History.qc (certificate 3))
    ∷ []

run-IsWithin_example : IsWithin 0 0 (History.run fresh instance_calls)
run-IsWithin_example = run-IsWithin fresh instance_calls (tt, (tt, (omega arith, tt))) (omega arith)

abbrev sent : List (Network.NetworkMessage ℕ ℕ)
sent = Network.proposal 1 ∷ Network.vote 2 ∷ Network.timeout 3 ∷ []
