-- ===== src/Tests/Agreement.antt =====
-- Two chains over the observed round 4 of four validators, of which the validator 3 is faulty.
use mathlib.Core.List.{Memᴰ}
use aptosbft.Common.{
  ℕ, ◌+◌, ◌*◌, ◌≡◌, refl, Bool, true, false, ◌&&◌, ◌||◌, ◌==◌, leb, ltb, none, some, ok, [], ◌∷◌,
  arith,
}
use aptosbft.Mock.{mock}
use aptosbft.Mock.ValidatorSet.{new as new_set}
use aptosbft.Safety.Rules.{
  new, safe_to_vote_impl, safe_to_timeout, safe_to_timeout_impl, observe_qc, next_round,
}
use aptosbft.Safety.Voting.{Rounds, round_of, hqc_of}
use aptosbft.Safety.Lock.Agreement.{Proposal, IsTimedOut, chains_agree}
use aptosbft.Tests.{certificate, validators}

-- The timeout certificate of round 5 that names round 4, and none.
abbrev is_tc : Rounds → Bool
is_tc none = false
is_tc (some (round, highest)) = (round == 5) && (highest == 4)

abbrev is_none : Rounds → Bool
is_none none = true
is_none (some tc) = false

-- The validators 0 to 2 vote for proposals of a few rounds, one for each.
abbrev voted : ℕ → Proposal → Bool
voted v a =
    leb v 2
    && (a.id == 10 * a.round)
    && ((ltb a.round 5 && (a.round == a.qc_round + 1) && is_none a.tc)
        || ((a.round == 5) && (a.qc_round == 4) && is_none a.tc)
        || ((a.round == 6) && (a.qc_round == 4) && is_tc a.tc))

voted-safe :
    (v : ℕ) (a : Proposal)
    → leb 3 v ≡ false
    → voted v a ≡ true
    → safe_to_vote_impl a.round a.qc_round (round_of a.tc) (hqc_of a.tc) ≡ ok tt
unfolding safe_to_vote_impl next_round
voted-safe v a sound h = go a.tc refl
  where
    go :
        (tc : Rounds)
        → a.tc ≡ tc
        → safe_to_vote_impl a.round a.qc_round (round_of a.tc) (hqc_of a.tc) ≡ ok tt
    go none e = ground (arith, e, h)
    go (some (round, highest)) e = ground (arith, e, h)

voted-once :
    (v : ℕ) (a b : Proposal)
    → leb 3 v ≡ false
    → voted v a ≡ true
    → voted v b ≡ true
    → a.round ≡ b.round
    → a.id ≡ b.id
voted-once v a b sound for_a for_b same = ground (arith, for_a, for_b, same)

abbrev third : Proposal
third = record { id = 30; parent = 20; round = 3; qc_round = 2; tc = none }

abbrev fourth : Proposal
fourth = record { id = 40; parent = 30; round = 4; qc_round = 3; tc = none }

abbrev fifth : Proposal
fifth = record { id = 50; parent = 40; round = 5; qc_round = 4; tc = none }

abbrev sixth : Proposal
sixth = record { id = 60; parent = 40; round = 6; qc_round = 4; tc = some (5, 4) }

timed_out :
    IsTimedOut mock validators
      (λ id. leb 3 id)
      (λ v. leb v 2)
      voted
      (λ v. new 0)
      (certificate 4)
      5
      4
unfolding new new_set safe_to_timeout safe_to_timeout_impl observe_qc next_round
timed_out = record {
  signed = λ v. leb v 2;
  told = λ v. [];
  hqc = λ v. 4;
  earlier = λ v. none;
  quorum = omega arith;
  allowed = λ v seen signed sound. (omega arith, refl);
}

chains_agree_example :
    (x y : Proposal) × Memᴰ x (sixth ∷ fourth ∷ third ∷ [])
    × Memᴰ y (fifth ∷ fourth ∷ [])
    × (x.round ≡ 4)
    × (y.round ≡ 4)
    × (x.id ≡ y.id)
unfolding new new_set
chains_agree_example =
    chains_agree mock validators (λ id. leb 3 id) (λ v. leb v 2) voted (λ v. new 0) (certificate 4)
      (omega arith) (omega arith) voted-safe voted-once sixth fifth (fourth ∷ third ∷ [])
      (fourth ∷ [])
      (
        (λ h. omega arith),
        (λ h. timed_out),
        refl,
        refl,
        ((λ h. omega arith), (λ h. tt), refl, refl, (λ h. omega (arith, h))),
      )
      ((λ h. omega arith), (λ h. tt), refl, refl, (λ h. omega arith)) (omega arith) (omega arith)
      (omega arith) (omega arith)
