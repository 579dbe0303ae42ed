-- ===== src/Runtime/Display.antt =====
-- How a message of the runtime prints (consensus-core/src/consensus/runtime.rs).
use Prim.Native.String.{String, ◌++◌}
use aptosbft.Common.{length}
use aptosbft.Common.Decimal.{show}
use aptosbft.Traits.{Traits}
use aptosbft.Runtime.{
  NetworkMessage, proposal, vote, quorum_certificate, round_timeout, sync_request, sync_response,
}

unfoldable pub show_message : {T : Traits} → NetworkMessage T → String
show_message {T} (proposal block) = "Proposal(round=" ++ (show (T.block_round block) ++ ")")
show_message {T} (vote v) = "Vote(round=" ++ (show (T.proposed_round v) ++ ")")
show_message {T} (quorum_certificate qc) = "QC(round=" ++ (show (T.qc_round qc) ++ ")")
show_message (round_timeout round) = "Timeout(round=" ++ (show round ++ ")")
show_message (sync_request target_round) = "SyncRequest(round=" ++ (show target_round ++ ")")
show_message (sync_response blocks) = "SyncResponse(count=" ++ (show (length blocks) ++ ")")
