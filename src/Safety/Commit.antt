-- ===== src/Safety/Commit.antt =====
-- The two-chain commit rule (consensus-core/src/safety_rules/two_chain.rs).
use aptosbft.Common.{highest-le, ◌+◌, ◌≤◌, ◌<◌, ◌≡◌, ◌↔◌, some, List, u64_size, arith}
use aptosbft.Traits.{Traits}
use aptosbft.Safety.Rules.{TwoChainSafetyRules, should_commit, observe_qc}
use aptosbft.Safety.History.{Input, run, run-highest, qc_round_of}

module _ (T : Traits) where
  -- A proposal commits its parent exactly if it stands one round above the one-chain round.
  pub should_commit_iff :
      (r : TwoChainSafetyRules) (b : T.Block)
      → (should_commit T r b ≡ some (T.parent_id b))
        ↔ (T.block_round b ≡ r.state.one_chain_round + 1)
  unfolding should_commit
  should_commit_iff r b = (λ h. ground arith, λ h. ground arith)

  one_chain_of_commit :
      (r : TwoChainSafetyRules) (b : T.Block) {id : T.Hash}
      → should_commit T r b ≡ some id
      → T.block_round b ≡ r.state.one_chain_round + 1
  unfolding should_commit
  one_chain_of_commit r b h = ground arith

  -- Whatever the rules are told between two commits, the later commit is by a proposal of the same
  -- round or a greater one.
  pub commits_ordered :
      (r : TwoChainSafetyRules) (is : List (Input T)) (b b' : T.Block) {id id' : T.Hash}
      → should_commit T r b ≡ some id
      → should_commit T (run T r is) b' ≡ some id'
      → T.block_round b ≤ T.block_round b'
  commits_ordered r is b b' h h' = omega (
    arith,
    one_chain_of_commit r b h,
    one_chain_of_commit (run T r is) b' h',
    (run-highest T r is).0,
    highest-le (qc_round_of T) r.state.one_chain_round is,
  )

  -- Where the preferred round is at most the one-chain round, a certificate of a greater round
  -- makes a proposal of the round after it commit its parent, and its round becomes the preferred
  -- round exactly if it directly follows the one-chain round.
  pub observe_qc_commits :
      (r : TwoChainSafetyRules) (qc : T.QuorumCert) (b : T.Block)
      → r.state.one_chain_round < T.qc_round qc
      → r.state.preferred_round ≤ r.state.one_chain_round
      → T.qc_round qc < u64_size
      → T.block_round b ≡ T.qc_round qc + 1
      → (should_commit T (observe_qc T r qc).0 b ≡ some (T.parent_id b))
        × (((observe_qc T r qc).0.state.preferred_round ≡ T.qc_round qc)
            ↔ (T.qc_round qc ≡ r.state.one_chain_round + 1))
  unfolding should_commit observe_qc
  observe_qc_commits r qc b lt p u e = (ground arith, (λ h. ground arith, λ h. ground arith))
