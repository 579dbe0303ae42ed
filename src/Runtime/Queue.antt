-- ===== src/Runtime/Queue.antt =====
-- The queue of the runtime (consensus-core/src/consensus/runtime.rs).
use aptosbft.Common.{
  ◌>>=◌, is_ok, is_ok-value, ap, map, true, ◌≡◌, refl, List, [], ◌∷◌, ok, arith, map, Result, ap,
}
use aptosbft.Traits.{Traits}
use aptosbft.Pacemaker.{Floats, enter_new_round, record_ordered_round}
use aptosbft.Consensus.{Consensus, ProposerElection, process_qc, process_timeout, ConsensusError}
use aptosbft.Runtime.{
  ConsensusRuntime, NetworkMessage, ExecutionResult, proposal, vote, quorum_certificate,
  round_timeout, sync_request, sync_response, process_message, process_queue,
  process_pending_messages, handle_network_message,
}

module _ {T : Traits} {F : Floats} {PE : ProposerElection} where
  -- The messages handled one by one, with their results beside them.
  abbrev pub handle_all :
      ConsensusRuntime T F PE
      → List (NetworkMessage T)
      → ConsensusRuntime T F PE × Result ConsensusError (List (NetworkMessage T × ExecutionResult))
  handle_all r [] = (r, ok [])
  handle_all r (m ∷ ms) =
      let (r', result) = handle_network_message r m in
      let (r'', results) = handle_all r' ms in (r'', do x ← result; xs ← results; ok ((m, x) ∷ xs))

  pub handle-process_message :
      (r : ConsensusRuntime T F PE) (m : NetworkMessage T)
      → handle_network_message r m ≡ (
        record r { consensus = (process_message r.consensus m).0 },
        (process_message r.consensus m).1,
      )
  unfolding handle_network_message
  handle-process_message r (proposal b) = refl
  handle-process_message r (vote v) = refl
  handle-process_message r (quorum_certificate q) = refl
  handle-process_message r (round_timeout n) = refl
  handle-process_message r (sync_request n) = refl
  handle-process_message r (sync_response bs) = refl

  handle_all-process_queue :
      (r : ConsensusRuntime T F PE) (ms : List (NetworkMessage T))
      → handle_all r ms ≡ (
        record r { consensus = (process_queue r.consensus ms).0 },
        (process_queue r.consensus ms).1,
      )
  unfolding process_queue
  handle_all-process_queue r [] = refl
  handle_all-process_queue r (m ∷ ms) = ground (
    arith,
    handle-process_message r m,
    handle_all-process_queue (record r { consensus = (process_message r.consensus m).0 }) ms,
  )

  process_message-is_ok :
      (c : Consensus T F PE) (m : NetworkMessage T) → is_ok (process_message c m).1 ≡ true
  unfolding process_qc process_timeout record_ordered_round enter_new_round
  process_message-is_ok c (proposal b) = refl
  process_message-is_ok c (vote v) = refl
  process_message-is_ok c (quorum_certificate q) = ground arith
  process_message-is_ok c (round_timeout n) = ground arith
  process_message-is_ok c (sync_request n) = refl
  process_message-is_ok c (sync_response bs) = refl

  process_queue-returns :
      (c : Consensus T F PE) (ms : List (NetworkMessage T))
      → (xs : List (NetworkMessage T × ExecutionResult)) × ((process_queue c ms).1 ≡ ok xs)
        × (map (λ x. x.0) xs ≡ ms)
  unfolding process_queue
  process_queue-returns c [] = ([], refl, refl)
  process_queue-returns c (m ∷ ms) =
      let (x, h) = is_ok-value (process_message c m).1 (process_message-is_ok c m) in
      let (xs, hs, same) = process_queue-returns (process_message c m).0 ms in
      ((m, x) ∷ xs, ground (arith, h, hs), ap (λ ys. m ∷ ys) same)

  -- Processing the queue ends with it empty and, for each message in order, the message with its
  -- result; it has the effects and the results of handling the messages one by one.
  pub process_pending_messages-handle_all :
      (r : ConsensusRuntime T F PE)
      → (xs : List (NetworkMessage T × ExecutionResult)) × (handle_all r r.pending_messages
          ≡ ((handle_all r r.pending_messages).0, ok xs))
        × (map (λ x. x.0) xs ≡ r.pending_messages)
        × (process_pending_messages r
            ≡ (record ((handle_all r r.pending_messages).0) { pending_messages = [] }, ok xs))
  unfolding process_pending_messages
  process_pending_messages-handle_all r =
      let (xs, h, same) = process_queue-returns r.consensus r.pending_messages in
      let handled = handle_all-process_queue r r.pending_messages in
      (xs, ground (arith, handled, h), same, ground (arith, handled, h))
