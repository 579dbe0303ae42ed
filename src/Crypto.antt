-- ===== src/Crypto.antt =====
-- Signature aggregation: consensus-core/src/crypto/signature_aggregator.rs.
pub mod Signers
use aptosbft.Common.{ℕ, ◌+◌, Bool, if◌then◌else◌, Option, none, some, List, [], ◌∷◌, Result}
use aptosbft.Common.Map.{Map, keys, values, get, contains_key, insert}
use aptosbft.Traits.{Traits, Verifier, Error, VerifyError}

pub record SignatureAggregator (T : Traits) : Type 0 where
  pub signatures : Map T.NodeId T.Signature
  pub voting_power : ℕ  -- u128
  pub signer_count : ℕ  -- usize

unfoldable pub new : (T : Traits) → SignatureAggregator T
new T = record { signatures = []; voting_power = 0; signer_count = 0 }

module _ {T : Traits} where
  unfoldable pub add_signature :
      SignatureAggregator T → T.NodeId → T.Signature → ℕ → SignatureAggregator T
  unfolding contains_key insert
  add_signature a validator_id signature voting_power =
      if contains_key T.node_id_eq validator_id a.signatures then a else record {
        signatures = insert T.node_id_eq validator_id signature a.signatures;
        voting_power = a.voting_power + voting_power;
        signer_count = a.signer_count + 1;
      }

  abbrev pub signers : SignatureAggregator T → List T.NodeId
  signers a = keys a.signatures

  abbrev pub signatures : SignatureAggregator T → List T.Signature
  signatures a = values a.signatures

  unfoldable pub check_quorum : SignatureAggregator T → Verifier T → Result VerifyError (Unit {0})
  check_quorum a verifier = verifier.check_voting_power (signers a) Bool.true

  unfoldable pub aggregate : SignatureAggregator T → Verifier T → Result Error T.Aggregated
  aggregate a verifier = verifier.aggregate_signatures (signatures a)

  unfoldable pub clear : SignatureAggregator T → SignatureAggregator T
  clear a = record { signatures = []; voting_power = 0; signer_count = 0 }

  unfoldable pub has_signed : SignatureAggregator T → T.NodeId → Bool
  unfolding contains_key
  has_signed a validator_id = contains_key T.node_id_eq validator_id a.signatures

  unfoldable pub get_signature : SignatureAggregator T → T.NodeId → Option T.Signature
  unfolding get
  get_signature a validator_id = get T.node_id_eq validator_id a.signatures

  -- One round of the loop by which `PendingVotes::check_quorum` and
  -- `RoundManager::form_quorum_certificate_for_block` fill an aggregator: a vote of an unknown
  -- author is left out.
  unfoldable pub add_vote_of : Verifier T → SignatureAggregator T → T.Vote → SignatureAggregator T
  unfolding add_signature
  add_vote_of verifier a vote = elim (verifier.get_voting_power (T.vote_author vote)) [
    | none ↦ a
    | some power ↦ add_signature a (T.vote_author vote) (T.vote_signature vote) power
  ]

  unfoldable pub collect : Verifier T → SignatureAggregator T → List T.Vote → SignatureAggregator T
  collect verifier a [] = a
  collect verifier a (vote ∷ votes) = collect verifier (add_vote_of verifier a vote) votes
