-- ===== src/Traits.antt =====
-- The traits of consensus-traits/src: what a blockchain gives to the protocol, as parameters.
mod Errors
pub mod Ledger
pub mod Network
pub mod Dag
use aptosbft.Common.{ℕ, ◌≤◌, ◌≡◌, ◌↔◌, Bool, true, Option, none, some, List, sum, Result, ok}
pub use Errors.*

-- The types that implement `Block`, `Vote`, `QuorumCertificate` and what they rest on, with the
-- methods that the protocol calls. `Arc` is left out: the values are immutable.
pub record Traits : Type 1 where
  pub Hash : Type 0
  pub hash_eq : Discrete Hash
  pub NodeId : Type 0
  pub node_id_eq : Discrete NodeId
  pub Signature : Type 0
  pub signature_eq : Discrete Signature
  pub Aggregated : Type 0
  pub BlockSignature : Type 0
  pub Block : Type 0
  pub Vote : Type 0
  pub QuorumCert : Type 0
  -- `proposal.metadata().round()` and the other methods of a block
  pub block_round : Block → ℕ
  pub parent_id : Block → Hash
  pub verify_signature : Block → Result Error (Unit {0})
  -- `vote.round()`, `vote.ledger_info().epoch()` and the other methods of a vote
  pub vote_round : Vote → ℕ
  pub vote_block_id : Vote → Hash
  pub vote_author : Vote → NodeId
  pub vote_signature : Vote → Signature
  pub vote_epoch : Vote → ℕ
  -- `vote.vote_data().proposed_block().round()`
  pub proposed_round : Vote → ℕ
  pub qc_round : QuorumCert → ℕ
  pub from_votes : List Vote → Aggregated → Result Error QuorumCert

-- `ValidatorVerifier`; `verify` is `vote.verify(verifier)` at this verifier. A signer's power is a
-- `u64` and their sum a `u128`, which the number of validators does not exhaust.
pub record Verifier (T : Traits) : Type 0 where
  pub verify : T.Vote → Result Error (Unit {0})
  pub get_voting_power : T.NodeId → Option ℕ
  pub total_voting_power : ℕ
  pub quorum_voting_power : ℕ
  pub check_voting_power : List T.NodeId → Bool → Result VerifyError (Unit {0})
  pub aggregate_signatures : List T.Signature → Result Error T.Aggregated

-- The voting power of a validator, 0 for one that the verifier does not know.
abbrev pub power_of : {T : Traits} → Verifier T → T.NodeId → ℕ
power_of verifier id = elim (verifier.get_voting_power id) [ none ↦ 0 | some power ↦ power ]

-- What `check_voting_power` documents: it accepts the signers whose power meets the quorum.
pub record IsLawful {T : Traits} (verifier : Verifier T) : Type 0 where
  pub check_iff :
      (ids : List T.NodeId)
      → (verifier.check_voting_power ids true ≡ ok tt)
        ↔ (verifier.quorum_voting_power ≤ sum (power_of verifier) ids)
