-- ===== src/Dag/Testing.antt =====
-- The test support of the DAG: consensus-core/src/dag/testing.rs. A test epoch, round and author is
-- the number it wraps, and the digests, hashes and signatures are rounds.
use aptosbft.Common.{
  ℕ, zero, suc, ◌+◌, ◌*◌, List, [], ◌∷◌, ◌++◌, length, length-append, u64, ◌≡◌, refl, arith,
}
use aptosbft.Dag.Types.{
  DagNodeId, DagNodeMetadata, DagPayload, ParentCertificates, DagNode, NodeCertificate,
  CertifiedNode, no_parents,
}

abbrev pub TestNodeId : Type 0
TestNodeId = DagNodeId ℕ

abbrev pub TestMetadata : Type 0
TestMetadata = DagNodeMetadata TestNodeId ℕ

abbrev pub TestNode : Type 0
TestNode = DagNode TestMetadata (DagPayload ℕ) (ParentCertificates TestMetadata)

abbrev pub TestCertificate : Type 0
TestCertificate = NodeCertificate TestMetadata ℕ

abbrev pub TestCertifiedNode : Type 0
TestCertifiedNode = CertifiedNode TestNode TestCertificate

pub record TestNodeBuilder : Type 0 where
  pub epoch : ℕ
  pub round : ℕ
  pub author : ℕ
  pub timestamp : ℕ

unfoldable pub new_builder : TestNodeBuilder
new_builder = record { epoch = 1; round = 1; author = 1; timestamp = 0 }

unfoldable pub default_builder : TestNodeBuilder
unfolding new_builder
default_builder = new_builder

unfoldable pub with_epoch : ℕ → TestNodeBuilder → TestNodeBuilder
with_epoch epoch b = record b { epoch = epoch }

unfoldable pub with_round : ℕ → TestNodeBuilder → TestNodeBuilder
with_round round b = record b { round = round }

unfoldable pub with_author : ℕ → TestNodeBuilder → TestNodeBuilder
with_author author b = record b { author = author }

unfoldable pub with_timestamp : ℕ → TestNodeBuilder → TestNodeBuilder
with_timestamp timestamp b = record b { timestamp = timestamp }

unfoldable pub build : TestNodeBuilder → TestCertifiedNode
unfolding no_parents
build b =
    let metadata : TestMetadata = record {
      node_id = record { epoch = b.epoch; round = b.round; author = b.author };
      timestamp = b.timestamp;
      digest = b.round;
    } in
    record {
      node = record {
        metadata = metadata;
        payload = record { data_bytes = []; hash = b.round };
        parents = no_parents;
      };
      certificate = record { metadata = metadata; signatures = b.round };
    }

-- The inner loop of `create_test_dag`, from the index `i`.
unfoldable pub nodes_of_round : ℕ → ℕ → List ℕ → List TestCertifiedNode
unfolding build with_timestamp with_author with_round with_epoch new_builder
nodes_of_round round i [] = []
nodes_of_round round i (author ∷ authors) =
    build (
      with_timestamp (u64 (round * 1000 + i))
        (with_author author (with_round round (with_epoch 1 new_builder))))
    ∷ nodes_of_round round (suc i) authors

-- The outer loop, with the number of rounds left.
unfoldable pub nodes_from : ℕ → ℕ → List ℕ → List TestCertifiedNode
unfolding nodes_of_round
nodes_from round zero authors = []
nodes_from round (suc left) authors =
    nodes_of_round round 0 authors ++ nodes_from (suc round) left authors

unfoldable pub create_test_dag : ℕ → List ℕ → List TestCertifiedNode
unfolding nodes_from
create_test_dag rounds authors = nodes_from 1 rounds authors

unfoldable pub authors_from : ℕ → ℕ → List ℕ
authors_from author zero = []
authors_from author (suc left) = author ∷ authors_from (suc author) left

unfoldable pub create_test_authors : ℕ → List ℕ
unfolding authors_from
create_test_authors count = authors_from 1 count

length-nodes_of_round :
    (round i : ℕ) (authors : List ℕ) → length (nodes_of_round round i authors) ≡ length authors
unfolding nodes_of_round
length-nodes_of_round round i [] = refl
length-nodes_of_round round i (a ∷ authors) =
    omega (arith, length-nodes_of_round round (suc i) authors)

length-nodes_from :
    (round left : ℕ) (authors : List ℕ)
    → length (nodes_from round left authors) ≡ left * length authors
unfolding nodes_from
length-nodes_from round zero authors = ground arith
length-nodes_from round (suc left) authors =
    rw
      (
        length-append (nodes_of_round round 0 authors) (nodes_from (suc round) left authors),
        length-nodes_of_round round 0 authors,
        length-nodes_from (suc round) left authors,
      )
      (ground arith)

-- A test DAG has a node for each round and author.
pub length-create_test_dag :
    (rounds : ℕ) (authors : List ℕ)
    → length (create_test_dag rounds authors) ≡ rounds * length authors
unfolding create_test_dag
length-create_test_dag rounds authors = length-nodes_from 1 rounds authors

length-authors_from : (author left : ℕ) → length (authors_from author left) ≡ left
unfolding authors_from
length-authors_from author zero = refl
length-authors_from author (suc left) = omega (arith, length-authors_from (suc author) left)

pub length-create_test_authors : (count : ℕ) → length (create_test_authors count) ≡ count
unfolding create_test_authors
length-create_test_authors count = length-authors_from 1 count
