-- ===== src/RoundManager.antt =====
-- The round manager: consensus-core/src/round_manager/mod.rs. It is generic over the safety rules,
-- an interface here. A method that fails half-way returns the state that it has reached.
pub mod Cases
pub mod Voting
pub mod History
pub mod Timeout
pub mod Certificate
pub mod Progress
pub mod Commit
pub mod Invariant
use Prim.Native.String.{String}
use aptosbft.Common.{
  ℕ, ◌+◌, Bool, ◌&&◌, not, ltb, ◌==◌, u64, if◌then◌else◌, Option, none, Result, ok, err, panic,
  ◌>>=◌, ◌>>◌, map_err,
}
use aptosbft.Traits.{Traits, Verifier, Error, verification, cannot_vote, timeout_refused}
use aptosbft.Types.{TimeoutReason, VoteStatus}
use aptosbft.Safety.Interface.{SafetyRules}
use aptosbft.Crypto.{new as new_aggregator, check_quorum, aggregate, collect}
use aptosbft.Round.{
  RoundState, set_proposed_block, set_quorum_cert, advance_round, is_current_round,
  is_current_epoch,
}
use aptosbft.Round
use aptosbft.Votes.{
  PendingVotes, VoteReceptionResult, add_vote, get_votes, remove_round, vote_count,
}
use aptosbft.Votes

pub record RoundManagerConfig : Type 0 where
  pub max_buffered_rounds : ℕ
  pub round_timeout_ms : ℕ
  pub max_pending_votes : ℕ

unfoldable pub default_config : RoundManagerConfig
default_config = record {
  max_buffered_rounds = 10;
  round_timeout_ms = 5000;
  max_pending_votes = 1000;
}

pub data ProposalProcessingResult : Type 0 where
  accepted : ProposalProcessingResult
  rejected : String → ProposalProcessingResult
  old_round : ProposalProcessingResult
  future_round : ProposalProcessingResult

pub record RoundManager {T : Traits} (S : SafetyRules T) : Type 0 where
  pub round_state : RoundState T
  pub pending_votes : PendingVotes T
  pub safety_rules : S.Rules
  pub config : RoundManagerConfig

abbrev pub is_completed : VoteReceptionResult → Bool
is_completed VoteReceptionResult.quorum_completed = Bool.true
is_completed _ = Bool.false

module _ {T : Traits} {S : SafetyRules T} where
  unfoldable pub new : RoundManagerConfig → S.Rules → RoundManager S
  new config safety_rules = record {
    round_state = Round.new T (record {
      initial_epoch = 0;
      initial_round = 0;
      max_buffered_rounds = config.max_buffered_rounds;
    });
    pending_votes = Votes.new T config.max_buffered_rounds;
    safety_rules = safety_rules;
    config = config;
  }

  unfoldable pub try_vote_for_proposal :
      RoundManager S → T.Block → Option S.TimeoutCert → RoundManager S × Result Error (Unit {0})
  try_vote_for_proposal m proposal timeout_cert =
      let proposal_round = T.block_round proposal in
      let last_voted_round = S.last_voted_round m.safety_rules in
      if ltb proposal_round last_voted_round
      then (m, err (cannot_vote proposal_round last_voted_round))
      else elim (S.safe_to_vote m.safety_rules proposal timeout_cert) [
        | ok _ ↦
            let (rules, result) = S.record_vote m.safety_rules proposal_round in
            (record m { safety_rules = rules }, result)
        | err e ↦ (m, err e)
        | panic ↦ (m, panic)
      ]

  unfoldable pub process_proposal :
      RoundManager S → T.Block → RoundManager S × Result Error ProposalProcessingResult
  unfolding is_current_round set_proposed_block
  process_proposal m proposal =
      let proposal_round = T.block_round proposal in
      if not (is_current_round m.round_state proposal_round)
      then (
        m,
        ok (
            if ltb proposal_round m.round_state.round
            then ProposalProcessingResult.old_round
            else ProposalProcessingResult.future_round),
      )
      else elim (T.verify_signature proposal) [
        | ok _ ↦ (
          record m { round_state = set_proposed_block m.round_state proposal },
          ok ProposalProcessingResult.accepted,
        )
        | err e ↦ (m, err e)
        | panic ↦ (m, panic)
      ]

  -- The certificate that `form_quorum_certificate_for_block` makes of the pending votes.
  unfoldable pub build_certificate :
      RoundManager S → T.Hash → ℕ → Verifier T → Result Error T.QuorumCert
  build_certificate m block_id round verifier = do
    let votes = get_votes m.pending_votes round block_id
    let aggregator = collect verifier (new_aggregator T) votes
    map_err verification (check_quorum aggregator verifier)
    aggregated_sig ← aggregate aggregator verifier
    T.from_votes votes aggregated_sig

  -- What `form_quorum_certificate_for_block` does with it.
  unfoldable pub install_certificate :
      RoundManager S → ℕ → T.QuorumCert → RoundManager S × Result Error (Unit {0})
  unfolding set_quorum_cert
  install_certificate m round qc =
      let (rules, observed) = S.observe_qc m.safety_rules qc in
      elim observed [
        | ok _ ↦ (
          record m {
            round_state = set_quorum_cert m.round_state qc;
            pending_votes = remove_round m.pending_votes round;
            safety_rules = rules;
          },
          ok tt,
        )
        | err e ↦ (record m { safety_rules = rules }, err e)
        | panic ↦ (record m { safety_rules = rules }, panic)
      ]

  unfoldable pub form_quorum_certificate_for_block :
      RoundManager S → T.Hash → ℕ → Verifier T → RoundManager S × Result Error (Unit {0})
  unfolding install_certificate
  form_quorum_certificate_for_block m block_id round verifier =
      elim (build_certificate m block_id round verifier) [
        | ok qc ↦ install_certificate m round qc
        | err e ↦ (m, err e)
        | panic ↦ (m, panic)
      ]

  unfoldable pub process_vote :
      RoundManager S → T.Vote → Verifier T → RoundManager S × Result Error VoteReceptionResult
  unfolding is_current_epoch
  process_vote m vote verifier = elim (verifier.verify vote) [
    | ok _ ↦
        if not (is_current_epoch m.round_state (T.vote_epoch vote))
        then (m, ok (VoteReceptionResult.rejected VoteStatus.rejected))
        else let (votes, result) = add_vote m.pending_votes vote verifier in
          let m' = record m { pending_votes = votes } in
          if is_completed result
          then (let (m'', formed) =
                form_quorum_certificate_for_block m' (T.vote_block_id vote) (T.vote_round vote)
                  verifier in
              (m'', do formed; ok result))
          else (m', ok result)
    | err e ↦ (m, err e)
    | panic ↦ (m, panic)
  ]

  unfoldable pub has_quorum_certificate : RoundManager S → T.Hash → ℕ → Bool
  has_quorum_certificate m block_id round =
      vote_count m.pending_votes round block_id == 0 && ltb round m.round_state.round

  -- The reason is not read.
  unfoldable pub process_timeout :
      RoundManager S → TimeoutReason → RoundManager S × Result Error (Unit {0})
  unfolding advance_round
  process_timeout m reason =
      let current_round = m.round_state.round in
      let qc_round = S.one_chain_round m.safety_rules in
      elim (S.safe_to_timeout m.safety_rules (u64 (current_round + 1)) qc_round none) [
        | ok _ ↦
            let state = advance_round m.round_state in
            (
              record m {
                safety_rules = S.record_timeout m.safety_rules current_round;
                round_state = state;
                pending_votes = Votes.set_round m.pending_votes state.round;
              },
              ok tt,
            )
        | err e ↦ (m, err (timeout_refused e))
        | panic ↦ (m, panic)
      ]

  unfoldable pub start_round : RoundManager S → ℕ → RoundManager S × Result Error (Unit {0})
  start_round m round = (
    record m {
      round_state = Round.set_round m.round_state round;
      pending_votes = Votes.set_round m.pending_votes round;
    },
    ok tt,
  )
