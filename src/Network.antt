-- ===== src/Network.antt =====
-- The network interface: consensus-core/src/network/mod.rs. Counters are `u64` numbers.
pub mod Counts
pub mod Display
use Prim.Native.String.{String}
use aptosbft.Common.{
  ℕ, ◌+◌, Bool, true, false, u64, not, ◌&&◌, if◌then◌else◌, Option, none, some, List, [], Result,
  ok,
}
use aptosbft.Common.Map.{Map, get, insert}
use aptosbft.Common.Text.{String_discrete}

pub data NetworkMessage {ℓ} (Block Vote : Type ℓ) : Type ℓ where
  proposal : Block → NetworkMessage Block Vote
  vote : Vote → NetworkMessage Block Vote
  timeout : ℕ → NetworkMessage Block Vote
  sync_request : ℕ → NetworkMessage Block Vote
  sync_response : List Block → NetworkMessage Block Vote
  epoch_change : ℕ → NetworkMessage Block Vote

pub data ProcessResult : Type 0 where
  success : ProcessResult
  validation_failed ignored needs_action : String → ProcessResult

abbrev pub is_success : ProcessResult → Bool
is_success success = true
is_success other = false

pub record NetworkConfig : Type 0 where
  pub max_message_size : ℕ
  pub network_timeout_ms : ℕ
  pub max_pending_syncs : ℕ
  pub validate_immediately : Bool

-- `NetworkConfig::default`.
abbrev pub default_config : NetworkConfig
default_config = record {
  max_message_size = 10485760;
  network_timeout_ms = 5000;
  max_pending_syncs = 10;
  validate_immediately = true;
}

pub record MessageHandlerStats : Type 0 where
  pub total_processed : ℕ
  pub successful : ℕ
  pub validation_failures : ℕ
  pub ignored_messages : ℕ
  pub needing_action : ℕ

abbrev pub new_stats : MessageHandlerStats
new_stats = record {
  total_processed = 0;
  successful = 0;
  validation_failures = 0;
  ignored_messages = 0;
  needing_action = 0;
}

unfoldable pub record_success : MessageHandlerStats → MessageHandlerStats
record_success s = record s {
  total_processed = u64 (s.total_processed + 1);
  successful = u64 (s.successful + 1);
}

unfoldable pub record_validation_failure : MessageHandlerStats → MessageHandlerStats
record_validation_failure s = record s {
  total_processed = u64 (s.total_processed + 1);
  validation_failures = u64 (s.validation_failures + 1);
}

unfoldable pub record_ignored : MessageHandlerStats → MessageHandlerStats
record_ignored s = record s {
  total_processed = u64 (s.total_processed + 1);
  ignored_messages = u64 (s.ignored_messages + 1);
}

unfoldable pub record_needs_action : MessageHandlerStats → MessageHandlerStats
record_needs_action s = record s {
  total_processed = u64 (s.total_processed + 1);
  needing_action = u64 (s.needing_action + 1);
}

pub record SimpleMessageHandler : Type 0 where
  pub stats : MessageHandlerStats
  pub config : NetworkConfig

unfoldable pub new : NetworkConfig → SimpleMessageHandler
new config = record { stats = new_stats; config = config }

module _ {ℓ} {Block Vote : Type ℓ} where
  -- The default of `MessageHandler`, which the simple handler keeps.
  unfoldable pub validate_message : NetworkMessage Block Vote → Bool
  validate_message message = true

  -- What the simple handler answers to a message by its type.
  unfoldable pub answer : NetworkMessage Block Vote → ProcessResult
  answer (proposal block) = success
  answer (vote v) = success
  answer (timeout round) = needs_action "Process timeout"
  answer (sync_request round) = needs_action "Handle sync request"
  answer (sync_response blocks) = success
  answer (epoch_change epoch) = needs_action "Handle epoch change"

  -- What it counts for the message.
  unfoldable pub count : MessageHandlerStats → NetworkMessage Block Vote → MessageHandlerStats
  unfolding record_success record_needs_action
  count s (proposal block) = record_success s
  count s (vote v) = record_success s
  count s (timeout round) = record_needs_action s
  count s (sync_request round) = record_needs_action s
  count s (sync_response blocks) = record_success s
  count s (epoch_change epoch) = record_needs_action s

  unfoldable pub process_message {κ} :
      {E : Type κ}
      → SimpleMessageHandler
      → NetworkMessage Block Vote
      → SimpleMessageHandler × Result E ProcessResult
  unfolding validate_message answer count record_validation_failure
  process_message h message =
      if h.config.validate_immediately && not (validate_message message)
      then (
        record h { stats = record_validation_failure h.stats },
        ok (validation_failed "Message validation failed"),
      )
      else (record h { stats = count h.stats message }, ok (answer message))

  unfoldable pub get_message_type : NetworkMessage Block Vote → String
  get_message_type (proposal block) = "proposal"
  get_message_type (vote v) = "vote"
  get_message_type (timeout round) = "timeout"
  get_message_type (sync_request round) = "sync_request"
  get_message_type (sync_response blocks) = "sync_response"
  get_message_type (epoch_change epoch) = "epoch_change"

-- `Arc<dyn MessageHandler>` is a type of handlers.
pub record MessageRouter (Handler : Type 0) : Type 0 where
  pub handlers : Map String Handler
  pub default_handler : Option Handler
  pub config : NetworkConfig

module _ {Handler : Type 0} where
  unfoldable pub new_router : NetworkConfig → MessageRouter Handler
  new_router config = record { handlers = []; default_handler = none; config = config }

  unfoldable pub register_handler : MessageRouter Handler → String → Handler → MessageRouter Handler
  unfolding String_discrete
  register_handler r message_type handler = record r {
    handlers = insert String_discrete message_type handler r.handlers;
  }

  unfoldable pub set_default_handler : MessageRouter Handler → Handler → MessageRouter Handler
  set_default_handler r handler = record r { default_handler = some handler }

  -- No branch calls a handler.
  unfoldable pub route_message {ℓ κ} :
      {Block Vote : Type ℓ} {E : Type κ}
      → MessageRouter Handler
      → NetworkMessage Block Vote
      → Result E (Option ProcessResult)
  unfolding get_message_type String_discrete
  route_message r message = elim (get String_discrete (get_message_type message) r.handlers) [
    | some handler ↦ ok none
    | none ↦ elim r.default_handler [ some default ↦ ok none | none ↦ ok none ]
  ]
