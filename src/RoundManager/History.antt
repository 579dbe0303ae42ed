-- ===== src/RoundManager/History.antt =====
-- Histories of a round manager (consensus-core/src/round_manager/mod.rs) and the votes it casts.
use aptosbft.Common.{
  Ascends, Ascends-mono, ℕ, ◌≤◌, ◌≡◌, refl, Option, Result, ok, err, panic, List, [], ◌∷◌, arith,
}
use aptosbft.Traits.{Traits, Verifier, Error}
use aptosbft.Types.{TimeoutReason}
use aptosbft.Safety.Interface.{SafetyRules, IsSafe}
use aptosbft.RoundManager.{
  RoundManager, try_vote_for_proposal, process_proposal, process_vote, process_timeout, start_round,
  install_certificate,
}
use aptosbft.RoundManager.Voting.{last_vote, try_vote_cases}
use aptosbft.RoundManager.Cases.{process_vote_cases}

pub data Call {T : Traits} (S : SafetyRules T) : Type 0 where
  votes_for : T.Block → Option S.TimeoutCert → Call S
  receives_proposal : T.Block → Call S
  receives_vote : T.Vote → Verifier T → Call S
  times_out : TimeoutReason → Call S
  starts_round : ℕ → Call S

-- The round of a vote that was allowed.
abbrev pub cast : {A : Type 0} → Result Error A → ℕ → List ℕ → List ℕ
cast (ok _) round rest = round ∷ rest
cast (err _) round rest = rest
cast panic round rest = rest

module _ {T : Traits} {S : SafetyRules T} where
  abbrev pub step : RoundManager S → Call S → RoundManager S
  step m (votes_for proposal tc) = (try_vote_for_proposal m proposal tc).0
  step m (receives_proposal proposal) = (process_proposal m proposal).0
  step m (receives_vote vote verifier) = (process_vote m vote verifier).0
  step m (times_out reason) = (process_timeout m reason).0
  step m (starts_round round) = (start_round m round).0

  abbrev pub run : RoundManager S → List (Call S) → RoundManager S
  run m [] = m
  run m (c ∷ cs) = run (step m c) cs

  -- The rounds of the votes that a call casts, before those of the later calls.
  abbrev pub casts : RoundManager S → Call S → List ℕ → List ℕ
  casts m (votes_for proposal tc) rest =
      cast (try_vote_for_proposal m proposal tc).1 (T.block_round proposal) rest
  casts m (receives_proposal proposal) rest = rest
  casts m (receives_vote vote verifier) rest = rest
  casts m (times_out reason) rest = rest
  casts m (starts_round round) rest = rest

  abbrev pub votes_cast : RoundManager S → List (Call S) → List ℕ
  votes_cast m [] = []
  votes_cast m (c ∷ cs) = casts m c (votes_cast (step m c) cs)

cast-Ascends :
    (r : Result Error (Unit {0})) (last last' round : ℕ) (rest : List ℕ)
    → (r ≡ ok tt → (last ≤ round) × (last' ≡ round))
    → last ≤ last'
    → Ascends last' rest
    → Ascends last (cast r round rest)
cast-Ascends (ok u) last last' round rest h l a =
    let (x, y) = h refl in (x, Ascends-mono round last' rest (omega arith) a)
cast-Ascends (err e) last last' round rest h l a = Ascends-mono last last' rest l a
cast-Ascends panic last last' round rest h l a = Ascends-mono last last' rest l a

module _ {T : Traits} {S : SafetyRules T} (safe : IsSafe S) where
  process_vote-last :
      (m : RoundManager S) (vote : T.Vote) (verifier : Verifier T)
      → last_vote safe (process_vote m vote verifier).0 ≡ last_vote safe m
  unfolding install_certificate
  process_vote-last m vote verifier =
      process_vote_cases (λ q. last_vote safe q ≡ last_vote safe m) m vote verifier refl refl
        λ qc _. ground (arith, safe.observe_qc_last m.safety_rules qc)

  process_proposal-last :
      (m : RoundManager S) (b : T.Block)
      → last_vote safe (process_proposal m b).0 ≡ last_vote safe m
  unfolding process_proposal
  process_proposal-last m b = ground arith

  process_timeout-last :
      (m : RoundManager S) (reason : TimeoutReason)
      → last_vote safe (process_timeout m reason).0 ≡ last_vote safe m
  unfolding process_timeout
  process_timeout-last m reason =
      ground (arith, safe.record_timeout_last m.safety_rules m.round_state.round)

  try_vote-last-le :
      (m : RoundManager S) (b : T.Block) (tc : Option S.TimeoutCert)
      → last_vote safe m ≤ last_vote safe (try_vote_for_proposal m b tc).0
  unfolding try_vote_for_proposal
  try_vote-last-le m b tc = ground (arith, safe.record_vote_last m.safety_rules (T.block_round b))

  try_vote-ok :
      (m : RoundManager S) (b : T.Block) (tc : Option S.TimeoutCert)
      → (try_vote_for_proposal m b tc).1 ≡ ok tt
      → (last_vote safe m ≤ T.block_round b)
        × (last_vote safe (try_vote_for_proposal m b tc).0 ≡ T.block_round b)
  try_vote-ok m b tc h = ground (arith, try_vote_cases safe m b tc)

  casts-Ascends :
      (m : RoundManager S) (c : Call S) (rest : List ℕ)
      → Ascends (last_vote safe (step m c)) rest
      → Ascends (last_vote safe m) (casts m c rest)
  unfolding start_round
  casts-Ascends m (votes_for proposal tc) rest a =
      cast-Ascends _ _ _ _ rest (try_vote-ok m proposal tc) (try_vote-last-le m proposal tc) a
  casts-Ascends m (receives_proposal proposal) rest a = rw (process_proposal-last m proposal) at a
  casts-Ascends m (receives_vote vote verifier) rest a = rw (process_vote-last m vote verifier) at a
  casts-Ascends m (times_out reason) rest a = rw (process_timeout-last m reason) at a
  casts-Ascends m (starts_round round) rest a = a

  -- Over any safety rules that meet their laws, the rounds of the votes that a round manager casts
  -- in any history of calls never fall, from its last vote on.
  pub votes_cast-Ascends :
      (m : RoundManager S) (cs : List (Call S)) → Ascends (last_vote safe m) (votes_cast m cs)
  votes_cast-Ascends m [] = tt
  votes_cast-Ascends m (c ∷ cs) =
      casts-Ascends m c (votes_cast (step m c) cs) (votes_cast-Ascends (step m c) cs)
