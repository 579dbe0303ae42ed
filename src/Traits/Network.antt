-- ===== src/Traits/Network.antt =====
-- The traits of validators and of the network: consensus-traits/src/network.rs. An associated type is
-- a parameter. What the network delivers is the environment's choice, so a method that sends answers
-- whether it failed, and one that receives answers a message.
use aptosbft.Common.{ℕ, List, Option, Result}

pub record ValidatorInfo (NodeId PublicKey Self : Type 0) : Type 0 where
  pub id : Self → NodeId
  pub public_key : Self → PublicKey
  pub voting_power : Self → ℕ

pub record ValidatorSet (NodeId Validator Self : Type 0) : Type 0 where
  pub validators : Self → List Validator
  pub get_validator : Self → NodeId → Option Validator
  pub total_voting_power : Self → ℕ
  pub quorum_threshold : Self → ℕ

pub record BlockRequest : Type 0 where
  pub block_id : List ℕ

pub record BlockResponse (Block : Type 0) : Type 0 where
  pub block : Option Block

pub data ConsensusMessage (Block Vote : Type 0) : Type 0 where
  proposal : Block → ConsensusMessage Block Vote
  vote : Vote → ConsensusMessage Block Vote
  block_request : BlockRequest → ConsensusMessage Block Vote
  block_response : BlockResponse Block → ConsensusMessage Block Vote
  new_round : ℕ → ConsensusMessage Block Vote

pub record ConsensusNetwork (Block Vote NodeId Error : Type 0) : Type 0 where
  pub send_proposal : NodeId → Block → Result Error (Unit {0})
  pub broadcast_proposal : Block → Result Error (Unit {0})
  pub send_vote : NodeId → Vote → Result Error (Unit {0})
  pub broadcast_vote : Vote → Result Error (Unit {0})
  pub receive_message : Result Error (ConsensusMessage Block Vote)
  pub validator_peers : List NodeId
