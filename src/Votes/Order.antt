-- ===== src/Votes/Order.antt =====
-- Votes that arrive in different orders (consensus-core/src/votes/pending_votes.rs).
pub mod Quorum
use mathlib.Core.List.Permᴰ
use mathlib.Core.List.{Pairwise, Permᴰ, mem-cons_self, eq-or-mem_of_mem-cons, not-mem-nil, Mem}
use mathlib.Core.Logic.Or
use aptosbft.Common.{
  ℕ, ◌≡◌, refl, ◌∙◌, ap, sym, Bool, false, true, ◌&&◌, ltb, if◌then◌else◌, ite, Option, none, some,
  arith, List, [], ◌∷◌,
}
use aptosbft.Traits.{Traits, Verifier}
use aptosbft.Votes.{PendingVotes, Key, key_eq, key_of, add_vote, store}
use aptosbft.Votes.Receive.{vote_at, add, vote_at-add_vote}

module _ (T : Traits) where
  -- Whether two votes are for one block with one signature.
  abbrev pub same_place : T.Vote → T.Vote → Bool
  same_place v w =
      ite (key_eq T (key_of T v) (key_of T w)) true false
      && ite (T.signature_eq (T.vote_signature v) (T.vote_signature w)) true false

  abbrev pub View : Type 0
  View = Key T → T.Signature → Option T.Vote

  abbrev pub add_each : View → ℕ → List T.Vote → View
  add_each view current [] = view
  add_each view current (vote ∷ votes) = add_each (add T view current vote) current votes

  add_comm :
      (view : View) (current : ℕ) (v w : T.Vote) (key : Key T) (sig : T.Signature)
      → same_place v w ≡ false
      → add T (add T view current v) current w key sig
        ≡ add T (add T view current w) current v key sig
  add_comm view current v w key sig h = ground arith

  same_place_symm : (v w : T.Vote) → same_place v w ≡ false → same_place w v ≡ false
  same_place_symm v w h = ground arith

  pub pair_apart :
      (v w : T.Vote)
      → same_place v w ≡ false
      → Pairwise (λ a b. same_place a b ≡ false) (v ∷ w ∷ [])
  pair_apart v w h =
      Pairwise.cons apart (Pairwise.cons (λ a m. absurd (not-mem-nil m)) Pairwise.nil)
    where
      apart : (a : T.Vote) → Mem a (w ∷ []) → same_place v a ≡ false
      apart a m =
          Or.elim (hlevel) (eq-or-mem_of_mem-cons m) (λ (e : a ≡ w). ap (same_place v) e ∙ h)
            (λ m'. absurd (not-mem-nil m'))

  add_each-Perm :
      (current : ℕ) {vs ws : List T.Vote}
      → Permᴰ vs ws
      → Pairwise (λ v w. same_place v w ≡ false) vs
      → (view : View) → add_each view current vs ≡ add_each view current ws
  add_each-Perm current Permᴰ.nil h view = refl
  add_each-Perm current (Permᴰ.cons {l₁ = vs} {l₂ = ws} e perm) (Pairwise.cons apart h) view =
      add_each-Perm current perm h _ ∙ ap (λ vote. add_each (add T view current vote) current ws) e
  add_each-Perm current (Permᴰ.swap {a = v} {b = w} {l = votes} e f) (Pairwise.cons apart h) view =
      ap (λ (now : View). add_each now current votes)
        (λ i key sig. add_comm view current v w key sig (apart w mem-cons_self) i)
      ∙ (λ i. add_each (add T (add T view current (f i)) current (e i)) current votes)
  add_each-Perm current (Permᴰ.trans perm perm') h view =
      add_each-Perm current perm h view
      ∙ add_each-Perm current perm' (Permᴰ.pairwise (λ v w. hlevel) same_place_symm perm h) view

module _ {T : Traits} where
  abbrev pub add_votes : PendingVotes T → List T.Vote → Verifier T → PendingVotes T
  add_votes p [] verifier = p
  add_votes p (vote ∷ votes) verifier = add_votes (add_vote p vote verifier).0 votes verifier

  add_vote-round :
      (p : PendingVotes T) (vote : T.Vote) (verifier : Verifier T)
      → (add_vote p vote verifier).0.current_round ≡ p.current_round
  unfolding add_vote store
  add_vote-round p vote verifier = ground arith

  vote_at-add_votes :
      (p : PendingVotes T) (votes : List T.Vote) (verifier : Verifier T)
      → vote_at (add_votes p votes verifier) ≡ add_each T (vote_at p) p.current_round votes
  vote_at-add_votes p [] verifier = refl
  vote_at-add_votes p (vote ∷ votes) verifier =
      let p' = (add_vote p vote verifier).0 in
      vote_at-add_votes p' votes verifier
      ∙ ap (λ current. add_each T (vote_at p') current votes) (add_vote-round p vote verifier)
      ∙ ap (λ view. add_each T view p.current_round votes)
          (λ i key sig. vote_at-add_vote p vote verifier key sig i)

  -- The recorded votes do not depend on the order of arrival.
  pub add_votes-Perm :
      (p : PendingVotes T) (verifier : Verifier T) {vs ws : List T.Vote}
      → Permᴰ vs ws
      → Pairwise (λ v w. same_place T v w ≡ false) vs
      → vote_at (add_votes p vs verifier) ≡ vote_at (add_votes p ws verifier)
  add_votes-Perm p verifier {vs} {ws} perm apart =
      vote_at-add_votes p vs verifier
      ∙ add_each-Perm T p.current_round perm apart (vote_at p)
      ∙ sym (vote_at-add_votes p ws verifier)
