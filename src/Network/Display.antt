-- ===== src/Network/Display.antt =====
-- How a message of the network interface prints (consensus-core/src/network/mod.rs).
use Prim.Native.String.{String, ◌++◌}
use aptosbft.Common.{length}
use aptosbft.Common.Decimal.{show}
use aptosbft.Network.{
  NetworkMessage, proposal, vote, timeout, sync_request, sync_response, epoch_change,
}

unfoldable pub show_message {ℓ} : {Block Vote : Type ℓ} → NetworkMessage Block Vote → String
show_message (proposal block) = "Proposal"
show_message (vote v) = "Vote"
show_message (timeout round) = "Timeout(round=" ++ (show round ++ ")")
show_message (sync_request round) = "SyncRequest(round=" ++ (show round ++ ")")
show_message (sync_response blocks) = "SyncResponse(count=" ++ (show (length blocks) ++ ")")
show_message (epoch_change epoch) = "EpochChange(epoch=" ++ (show epoch ++ ")")
