-- ===== src/Mock/Bytes.antt =====
-- The mock hashes, signatures and keys as bytes (consensus-core/src/testing/mock_types.rs). A byte is
-- a number below 256.
use aptosbft.Common.{ℕ, List, [], ◌∷◌, Result, ok, err}

pub data BytesError : Type 0 where
  empty_bytes : BytesError

-- `MockHash` and, for node ids, `MockNodeId`.
pub record MockHash : Type 0 where
  pub inner : ℕ

pub record MockSignature : Type 0 where
  pub byte : ℕ

pub data MockAggregatedSignature : Type 0 where
  aggregated : MockAggregatedSignature

pub data MockPublicKey : Type 0 where
  public_key : MockPublicKey

abbrev pub zero_hash : MockHash
zero_hash = record { inner = 0 }

unfoldable pub hash_from_bytes : List ℕ → Result BytesError MockHash
hash_from_bytes [] = err empty_bytes
hash_from_bytes (b ∷ bs) = ok (record { inner = b })

unfoldable pub hash_as_bytes : MockHash → List ℕ
hash_as_bytes h = []

unfoldable pub verify : MockSignature → List ℕ → MockPublicKey → Result BytesError (Unit {0})
verify s message key = ok tt

unfoldable pub to_bytes : MockSignature → List ℕ
to_bytes s = s.byte ∷ []

unfoldable pub from_bytes : List ℕ → Result BytesError MockSignature
from_bytes [] = err empty_bytes
from_bytes (b ∷ bs) = ok (record { byte = b })

unfoldable pub aggregate : List MockSignature → Result BytesError MockAggregatedSignature
aggregate signatures = ok aggregated

unfoldable pub key_to_bytes : MockPublicKey → List ℕ
key_to_bytes key = []

unfoldable pub key_from_bytes : List ℕ → Result BytesError MockPublicKey
key_from_bytes bytes = ok public_key
