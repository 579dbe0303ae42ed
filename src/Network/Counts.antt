-- ===== src/Network/Counts.antt =====
-- The counters of a message handler over a history (consensus-core/src/network/mod.rs).
use aptosbft.Common.{ℕ, ◌+◌, ◌≡◌, refl, List, [], ◌∷◌, u64, true, false, length, sum, arith}
use aptosbft.Network.{
  NetworkMessage, NetworkConfig, SimpleMessageHandler, MessageHandlerStats, is_success, answer,
  process_message, new, count, record_success, record_needs_action, validate_message,
}
use aptosbft.Network

-- The counters after a number of successes and a number of messages that wait for an action.
abbrev pub Counts : MessageHandlerStats → ℕ → ℕ → Type 0
Counts s done waiting =
    (s.total_processed ≡ u64 (done + waiting))
    × (s.successful ≡ u64 done)
    × (s.needing_action ≡ u64 waiting)
    × (s.validation_failures ≡ 0)
    × (s.ignored_messages ≡ 0)

module _ {ℓ} {Block Vote : Type ℓ} where
  abbrev pub run : SimpleMessageHandler → List (NetworkMessage Block Vote) → SimpleMessageHandler
  run h [] = h
  run h (m ∷ ms) = run (process_message {E = Unit {0}} h m).0 ms

  -- 1 for a message that is answered with success, or for one that is not.
  abbrev pub succeeds : NetworkMessage Block Vote → ℕ
  succeeds m = elim (is_success (answer m)) [ true ↦ 1 | false ↦ 0 ]

  abbrev pub waits : NetworkMessage Block Vote → ℕ
  waits m = elim (is_success (answer m)) [ true ↦ 0 | false ↦ 1 ]

  process_message-Counts :
      (h : SimpleMessageHandler) (m : NetworkMessage Block Vote) (done waiting : ℕ)
      → Counts h.stats done waiting
      → Counts (process_message {E = Unit {0}} h m).0.stats (done + succeeds m) (waiting + waits m)
  unfolding process_message
  process_message-Counts h (Network.proposal b) done waiting c = ground arith
  process_message-Counts h (Network.vote v) done waiting c = ground arith
  process_message-Counts h (Network.timeout n) done waiting c = ground arith
  process_message-Counts h (Network.sync_request n) done waiting c = ground arith
  process_message-Counts h (Network.sync_response bs) done waiting c = ground arith
  process_message-Counts h (Network.epoch_change n) done waiting c = ground arith

  run-Counts_from :
      (h : SimpleMessageHandler) (ms : List (NetworkMessage Block Vote)) (done waiting : ℕ)
      → Counts h.stats done waiting
      → Counts (run h ms).stats (done + sum succeeds ms) (waiting + sum waits ms)
  run-Counts_from h [] done waiting c = ground arith
  run-Counts_from h (m ∷ ms) done waiting c = ground (
    arith,
    run-Counts_from (process_message {E = Unit {0}} h m).0 ms (done + succeeds m)
        (waiting + waits m) (process_message-Counts h m done waiting c),
  )

  sum-succeeds-waits :
      (ms : List (NetworkMessage Block Vote)) → sum succeeds ms + sum waits ms ≡ length ms
  unfolding answer
  sum-succeeds-waits [] = refl
  sum-succeeds-waits (m ∷ ms) = ground (arith, sum-succeeds-waits ms)

  -- After any messages to a new handler, the counters are, modulo 2^64, the numbers of all
  -- messages, of those answered with success and of the others, and no failure of a validation and
  -- no ignored message is counted.
  pub run-Counts :
      (config : NetworkConfig) (ms : List (NetworkMessage Block Vote))
      → let s = (run (new config) ms).stats in
        (s.total_processed ≡ u64 (length ms))
        × (s.successful ≡ u64 (sum succeeds ms))
        × (s.needing_action ≡ u64 (sum waits ms))
        × (s.validation_failures ≡ 0)
        × (s.ignored_messages ≡ 0)
  unfolding new
  run-Counts config ms =
      ground (arith, run-Counts_from (new config) ms 0 0 (ground arith), sum-succeeds-waits ms)
