-- ===== src/Votes/Unordered/Quotient.antt =====
-- The pending votes (consensus-core/src/votes/pending_votes.rs) up to the order of their maps, as a
-- quotient on which the operations act.
use mathlib.Core.Quot
use mathlib.Core.Quot.{Quot, Quot-set}
use mathlib.Core.List.{Permᴰ}
use aptosbft.Common.{◌≡◌, refl, false, List, [], ◌∷◌, Option}
use aptosbft.Traits.{Traits, Verifier}
use aptosbft.Votes.{PendingVotes, Key}
use aptosbft.Votes.Receive.{vote_at}
use aptosbft.Votes.Order.{same_place, pair_apart}
use aptosbft.Votes.Filing.{Call, adds, step, run}
use aptosbft.Votes.Unordered.{SameVotes, step-SameVotes}
use aptosbft.Votes.Unordered.Arrival.{add_votes-SameVotes}

module _ (T : Traits) where
  abbrev Unordered : Type 0
  Unordered = Quot (SameVotes {T = T})

  abbrev class : PendingVotes T → Unordered
  class p = Quot.mk p

  unfoldable act : Call T → Unordered → Unordered
  act c =
      Quot.lift Quot-set (λ p. class (step p c))
        (λ p q same. Quot.sound (step-SameVotes p q c same))

  abbrev act_all : List (Call T) → Unordered → Unordered
  act_all [] x = x
  act_all (c ∷ cs) x = act_all cs (act c x)

  -- The operations on the maps are those on the classes.
  class-run : (p : PendingVotes T) (cs : List (Call T)) → class (run p cs) ≡ act_all cs (class p)
  unfolding act
  class-run p [] = refl
  class-run p (c ∷ cs) = class-run (step p c) cs

  -- What is recorded for a block and a signature is a function of the class.
  recorded : IsSet T.Vote → Key T → T.Signature → Unordered → Option T.Vote
  recorded vote-IsSet key sig =
      Quot.lift (hlevel) (λ p. vote_at p key sig) (λ p q same. same.2 key sig)

  -- On the classes, the additions of two votes with different blocks or signatures commute.
  adds_commute :
      (v w : T.Vote) (verifier : Verifier T)
      → same_place T v w ≡ false
      → (x : Unordered)
      → act (adds w verifier) (act (adds v verifier) x)
        ≡ act (adds v verifier) (act (adds w verifier) x)
  unfolding act
  adds_commute v w verifier apart =
      Quot.ind (λ x. Quot-set _ _)
        (λ p.
          Quot.sound
            (add_votes-SameVotes p verifier (Permᴰ.swap refl refl) (pair_apart T v w apart)))
