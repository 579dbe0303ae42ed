-- ===== src/Safety/Rules.antt =====
-- `TwoChainSafetyRules`: consensus-core/src/safety_rules/two_chain.rs. A method that takes
-- `&mut self` returns the new state of the rules with its result.
use aptosbft.Common.{
  ℕ, ◌+◌, ◌-◌, Bool, true, false, ◌&&◌, ◌||◌, ltb, leb, ◌==◌, u64, u64_max, if◌then◌else◌, Option,
  none, some, Result, ok, err, panic, ◌>>=◌, ensure,
}
use aptosbft.Traits.{
  Traits, Error, round_overflow, not_safe_to_vote, not_safe_to_timeout, cannot_record_vote,
}
use aptosbft.Timeout.{TwoChainTimeoutCertificate}
use aptosbft.Safety.State.{
  SafetyStateData, update_one_chain_round, update_preferred_round, update_highest_timeout_round,
}

-- The blocks and votes are phantom parameters of the struct.
pub record TwoChainSafetyRules : Type 0 where
  pub state : SafetyStateData

unfoldable pub new : ℕ → TwoChainSafetyRules
new epoch = record {
  state = record {
    epoch = epoch;
    last_voted_round = 0;
    preferred_round = 0;
    one_chain_round = 0;
    highest_timeout_round = 0;
  };
}

unfoldable pub with_state : SafetyStateData → TwoChainSafetyRules
with_state s = record { state = s }

-- `round.checked_add(1)`.
unfoldable pub next_round : ℕ → Result Error ℕ
next_round round = if ltb round u64_max then ok (round + 1) else err (round_overflow round)

abbrev with_tc : ℕ → ℕ → Option ℕ → Option ℕ → Result Error Bool
with_tc block_round qc_round (some tc_r) (some tc_hqc) = do
  next ← next_round tc_r
  ok (block_round == next && leb tc_hqc qc_round)
with_tc block_round qc_round _ _ = ok false

unfoldable pub safe_to_vote_impl : ℕ → ℕ → Option ℕ → Option ℕ → Result Error (Unit {0})
unfolding next_round
safe_to_vote_impl block_round qc_round tc_round tc_hqc_round = do
  next ← next_round qc_round
  by_tc ← with_tc block_round qc_round tc_round tc_hqc_round
  ensure (block_round == next || by_tc)
      (not_safe_to_vote block_round qc_round tc_round tc_hqc_round)

-- `Self::next_round(tc_r).unwrap()`.
abbrev next_of_tc : ℕ → ℕ → Result Error Bool
next_of_tc round tc_r = elim (next_round tc_r) [
  | ok next ↦ ok (round == next)
  | err e ↦ panic
  | panic ↦ panic
]

abbrev tc_progression : ℕ → Option ℕ → Result Error Bool
tc_progression round none = ok false
tc_progression round (some tc_r) = next_of_tc round tc_r

unfoldable pub safe_to_timeout_impl :
    TwoChainSafetyRules → ℕ → ℕ → Option ℕ → Result Error (Unit {0})
unfolding next_round
safe_to_timeout_impl r round qc_round tc_round = do
  next ← next_round qc_round
  progression ← if round == next then ok true else tc_progression round tc_round
  ensure (progression && leb r.state.one_chain_round qc_round)
      (not_safe_to_timeout round qc_round tc_round r.state.one_chain_round)

module _ (T : Traits) where
  abbrev tc_round : Option (TwoChainTimeoutCertificate T) → Option ℕ
  tc_round none = none
  tc_round (some tc) = some tc.round

  abbrev tc_hqc_round : Option (TwoChainTimeoutCertificate T) → Option ℕ
  tc_hqc_round none = none
  tc_hqc_round (some tc) = some tc.hqc_round

  -- The round of the block's certificate is taken to be `block_round.saturating_sub(1)`.
  unfoldable pub safe_to_vote :
      TwoChainSafetyRules
      → T.Block
      → Option (TwoChainTimeoutCertificate T)
      → Result Error (Unit {0})
  unfolding safe_to_vote_impl
  safe_to_vote r proposal timeout_cert =
      let block_round = T.block_round proposal in
      safe_to_vote_impl block_round (block_round - 1) (tc_round timeout_cert)
        (tc_hqc_round timeout_cert)

  unfoldable pub safe_to_timeout :
      TwoChainSafetyRules → ℕ → ℕ → Option (TwoChainTimeoutCertificate T) → Result Error (Unit {0})
  unfolding safe_to_timeout_impl
  safe_to_timeout r round qc_round timeout_cert =
      safe_to_timeout_impl r round qc_round (tc_round timeout_cert)

  unfoldable pub observe_qc :
      TwoChainSafetyRules → T.QuorumCert → TwoChainSafetyRules × Result Error (Unit {0})
  unfolding update_preferred_round update_one_chain_round
  observe_qc r qc =
      let qc_round = T.qc_round qc in
      let s =
        if qc_round == u64 (r.state.one_chain_round + 1)
        then (update_preferred_round r.state qc_round).0
        else r.state in
      (record { state = (update_one_chain_round s qc_round).0 }, ok tt)

  unfoldable pub observe_tc :
      TwoChainSafetyRules
      → TwoChainTimeoutCertificate T
      → TwoChainSafetyRules × Result Error (Unit {0})
  unfolding update_highest_timeout_round update_one_chain_round
  observe_tc r tc =
      let s = (update_highest_timeout_round r.state tc.round).0 in
      (record { state = (update_one_chain_round s tc.hqc_round).0 }, ok tt)

  unfoldable pub should_commit : TwoChainSafetyRules → T.Block → Option T.Hash
  should_commit r proposal =
      let proposal_round = T.block_round proposal in
      if ltb 0 proposal_round && r.state.one_chain_round == proposal_round - 1
      then some (T.parent_id proposal)
      else none

unfoldable pub record_vote : TwoChainSafetyRules → ℕ → TwoChainSafetyRules × Result Error (Unit {0})
record_vote r round =
    if ltb round r.state.last_voted_round
    then (r, err (cannot_record_vote round r.state.last_voted_round))
    else if ltb r.state.last_voted_round round
    then (record r { state = record (r.state) { last_voted_round = round } }, ok tt)
    else (r, ok tt)

unfoldable pub record_timeout : TwoChainSafetyRules → ℕ → TwoChainSafetyRules
unfolding update_highest_timeout_round
record_timeout r round = record { state = (update_highest_timeout_round r.state round).0 }
