-- ===== src/Votes.antt =====
-- Pending votes: consensus-core/src/votes/pending_votes.rs.
pub mod Receive
pub mod Filing
pub mod Quorum
pub mod Power
pub mod Overlap
pub mod Order
pub mod Unordered
use aptosbft.Common.{
  ℕ, ◌-◌, Bool, false, not, ltb, leb, ◌==◌, if◌then◌else◌, none, some, List, [], is_ok, length, sum,
  ℕ_discrete,
}
use aptosbft.Common.Map.{Map, values, get, contains_key, insert, retain, pair_eq}
use aptosbft.Traits.{Traits, Verifier, power_of}
use aptosbft.Types.{VoteStatus}
use aptosbft.Crypto.{new as new_aggregator, check_quorum as check_aggregator, collect}

pub data VoteReceptionResult : Type 0 where
  accepted : VoteReceptionResult
  rejected : VoteStatus → VoteReceptionResult
  quorum_completed : VoteReceptionResult
  old_round : VoteReceptionResult
  future_round : VoteReceptionResult

-- The votes for a block of a round, by their signatures.
abbrev pub BlockVotes : Traits → Type 0
BlockVotes T = Map T.Signature T.Vote

abbrev pub Key : Traits → Type 0
Key T = ℕ × T.Hash

abbrev pub key_eq : (T : Traits) → Discrete (Key T)
unfolding pair_eq
key_eq T = pair_eq ℕ_discrete T.hash_eq

abbrev pub key_of : (T : Traits) → T.Vote → Key T
key_of T vote = (T.vote_round vote, T.vote_block_id vote)

pub record PendingVotes (T : Traits) : Type 0 where
  pub votes : Map (Key T) (BlockVotes T)
  pub current_round : ℕ
  pub max_rounds : ℕ

unfoldable pub new : (T : Traits) → ℕ → PendingVotes T
new T max_rounds = record { votes = []; current_round = 0; max_rounds = max_rounds }

module _ {T : Traits} where
  -- The votes of a key, none if the key is not there.
  abbrev pub votes_at : PendingVotes T → Key T → BlockVotes T
  votes_at p key = elim (get (key_eq T) key p.votes) [ none ↦ [] | some votes ↦ votes ]

  abbrev pub is_duplicate : PendingVotes T → T.Vote → Bool
  is_duplicate p vote = elim (get (key_eq T) (key_of T vote) p.votes) [
    | none ↦ false
    | some round_votes ↦ contains_key T.signature_eq (T.vote_signature vote) round_votes
  ]

  -- `entry(key).or_insert_with(HashMap::new).insert(signature, vote)`.
  unfoldable pub store : PendingVotes T → T.Vote → PendingVotes T
  store p vote = record p {
    votes =
        insert (key_eq T) (key_of T vote)
          (insert T.signature_eq (T.vote_signature vote) vote (votes_at p (key_of T vote))) p.votes;
  }

  unfoldable pub check_quorum : PendingVotes T → Key T → Verifier T → Bool
  check_quorum p key verifier = elim (get (key_eq T) key p.votes) [
    | none ↦ false
    | some votes ↦
        is_ok (check_aggregator (collect verifier (new_aggregator T) (values votes)) verifier)
  ]

  unfoldable pub add_vote :
      PendingVotes T → T.Vote → Verifier T → PendingVotes T × VoteReceptionResult
  unfolding store
  add_vote p vote verifier =
      if ltb (T.vote_round vote) p.current_round
      then (p, old_round)
      else if is_duplicate p vote
      then (p, rejected VoteStatus.rejected)
      else let p' = store p vote in
        if check_quorum p' (key_of T vote) verifier then (p', quorum_completed) else (p', accepted)

  -- `cleanup_old_votes`.
  unfoldable pub cleanup_old_votes : PendingVotes T → PendingVotes T
  cleanup_old_votes p =
      let cutoff_round = p.current_round - p.max_rounds in
      record p { votes = retain (λ key. leb cutoff_round key.0) p.votes }

  unfoldable pub set_round : PendingVotes T → ℕ → PendingVotes T
  unfolding cleanup_old_votes
  set_round p round = cleanup_old_votes (record p { current_round = round })

  unfoldable pub remove_round : PendingVotes T → ℕ → PendingVotes T
  remove_round p round = record p { votes = retain (λ key. not (key.0 == round)) p.votes }

  unfoldable pub get_votes : PendingVotes T → ℕ → T.Hash → List T.Vote
  get_votes p round block_id = values (votes_at p (round, block_id))

  unfoldable pub vote_count : PendingVotes T → ℕ → T.Hash → ℕ
  vote_count p round block_id = length (votes_at p (round, block_id))

  unfoldable pub total_votes : PendingVotes T → ℕ
  total_votes p = sum length (values p.votes)

  -- Every vote counts, also a second one of the same author.
  unfoldable pub aggregated_voting_power : PendingVotes T → ℕ → T.Hash → Verifier T → ℕ
  aggregated_voting_power p round block_id verifier =
      sum (λ vote. power_of verifier (T.vote_author vote)) (values (votes_at p (round, block_id)))

  unfoldable pub can_form_quorum : PendingVotes T → ℕ → T.Hash → Verifier T → Bool
  unfolding aggregated_voting_power
  can_form_quorum p round block_id verifier =
      leb verifier.quorum_voting_power (aggregated_voting_power p round block_id verifier)
