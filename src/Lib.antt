-- ===== src/Lib.antt =====
-- A model of the AptosBFT consensus library: the crates consensus-core and consensus-traits.
--
-- The program. A validator runs a `Consensus` instance. Proposals pass a `Pipeline` and then a
-- `RoundManager`, which holds the round, the pending votes and the safety rules. Votes are kept in
-- `PendingVotes` until a `SignatureAggregator` of their authors reaches the quorum of the
-- `ValidatorVerifier`; then a quorum certificate is made, shown to the `TwoChainSafetyRules` and
-- stored in the `RoundState`. The rules decide which proposals may be voted for, which rounds may
-- time out and which blocks commit. Their state is persisted by the recovery module. A `Pacemaker`
-- tells the timeouts of the rounds, a proposer election the leaders, an `EpochManager` the epochs.
-- A `ConsensusRuntime` owns the instance and a queue of messages of the network; a `MessageRouter`
-- holds handlers of messages. In the DAG mode, a `DagDriver` takes certified nodes, an `OrderRule`
-- is to order them, and an `InMemDag` keeps them. A validator that is behind fetches blocks by
-- `StateSync`; a `ReconfigHandler` moves the validators to a new epoch.
--
-- The files, with the code that they are about:
--   Common, Common/*       lists, results, maps and tests on numbers
--   Traits, Traits/*       consensus-traits/src/block.rs, core.rs, network.rs and dag.rs: what a
--                          blockchain and a network provide
--   Display, Network/Display, Runtime/Display   how states, errors and messages print
--   Mock, Mock/*           consensus-core/src/testing: an implementation of the traits
--   Types                  consensus-core/src/types.rs
--   Timeout, Timeout/*     consensus-core/src/timeout/two_chain.rs
--   Safety/State           consensus-core/src/safety_rules/state.rs
--   Safety/Rules           consensus-core/src/safety_rules/two_chain.rs
--   Safety/Interface       consensus-traits/src/safety.rs, with the laws that clients use
--   Safety/Voting, Safety/History, Safety/Commit, Safety/Lock, Safety/Lock/*   theorems on the rules
--   Safety/Recovery, Safety/Recovery/*   consensus-core/src/safety_rules/recovery.rs
--   Crypto, Crypto/*       consensus-core/src/crypto/signature_aggregator.rs
--   Votes, Votes/*         consensus-core/src/votes/pending_votes.rs
--   Round                  consensus-core/src/state/round_state.rs
--   RoundManager, RoundManager/*   consensus-core/src/round_manager/mod.rs
--   Epoch, Epoch/*         consensus-core/src/epoch_manager/mod.rs
--   Pacemaker, Pacemaker/* consensus-core/src/liveness/pacemaker.rs
--   Proposer, Proposer/*   consensus-core/src/liveness/proposer.rs
--   Proposal               consensus-core/src/proposal/generator.rs
--   Pipeline, Pipeline/*   consensus-core/src/pipeline/mod.rs
--   Consensus, Consensus/* consensus-core/src/consensus/mod.rs
--   Runtime, Runtime/*     consensus-core/src/consensus/runtime.rs
--   Network, Network/*     consensus-core/src/network/mod.rs
--   Dag, Dag/Slots, Dag/Store, Dag/History, Dag/Size, Dag/View, Dag/View/*
--                          consensus-core/src/dag/store.rs
--   Dag/Types, Dag/Types/*        consensus-core/src/dag/types.rs
--   Dag/Ordering, Dag/Ordering/*  consensus-core/src/dag/ordering.rs
--   Dag/Driver, Dag/Driver/*      consensus-core/src/dag/driver.rs
--   Dag/Testing                   consensus-core/src/dag/testing.rs
--   StateSync, StateSync/* consensus-core/src/consensus/state_sync.rs
--   Reconfig, Reconfig/*   consensus-core/src/consensus/reconfig.rs
--   Tests, Tests/*         the theorems at concrete inputs
-- Definitions keep the names of the code. `new` of a struct is the `new` of its module; a `default`
-- is `default_config` and the like.
--
-- How it is modelled. A struct is a record, an enum a data type. A method with `&mut self` returns
-- the new state, beside its result where it has one. `Result` has a third case for a panic (an
-- `unwrap`, an assertion, a remainder by 0). Error messages are constructors with what they print;
-- logging is left out, and what implements `Display` in the crates has a function to a text. `Arc` and references are plain values, since what is shared is
-- never changed. A `HashMap` is a list of entries with one entry for each key; the code depends on
-- no order of it, except that a certificate's votes come in the order of iteration, here that of
-- insertion, and that of two signatures of one author the first is aggregated. Votes/Unordered takes
-- pending votes up to the order of their maps, Votes/Unordered/Quotient as a quotient. A `BTreeMap`
-- is a list in the order of its keys.
--
-- Numbers. Rounds, epochs and powers are `u64`, as numbers with the wrap-around of the release
-- profile written out (`u64`) at every `+ 1` or `+ n` of a round or an epoch; `saturating_sub` is
-- the subtraction that stops at 0. Sums of voting powers are `u128` and counts are `usize`, which
-- no set of validators with `u64` powers exhausts, and stand without a bound. Theorems say where
-- they need a round below the greatest `u64`.
--
-- Parameters. The block, vote and certificate types and their methods are the record `Traits`; a
-- verifier is a `Verifier`, and the documented contract of `check_voting_power` is the hypothesis
-- `IsLawful`. The round manager is over any `SafetyRules`, with the hypothesis `IsSafe` for their
-- documented effects; the instance uses `two_chain`. A storage is a `SafetyStorage`, with the
-- hypothesis `IsDurable` and, across crashes, `IsAtomic`; floating point numbers are `Floats` and,
-- for the reputations, `Scale`, with the hypothesis `IsLawful` for the documented range of `clamp`;
-- the handlers of a router are a type; the election of the instance is a `ProposerElection`; what
-- the DAG store reads of a node is `Nodes`.
--
-- Fuel. The loop of `Pipeline::process_block` goes through the stages in their order; its fuel is
-- 4, the number of stages. The loop of `StateSync::ready_blocks` removes a kept block in every
-- round; its fuel is one more than their number. A number prints with fuel 20, the digits of a `u64`.
-- All other loops are over lists or are counted.
--
-- Not modelled: an implementation of the network, which the crates do not have; serialization and
-- hashing; the test modules of the source files; plain getters, which are the fields of the records.
pub mod Common
pub mod Traits
pub mod Display
pub mod Mock
pub mod Timeout
pub mod Safety
pub mod Crypto
pub mod Types
pub mod Round
pub mod Votes
pub mod RoundManager
pub mod Epoch
pub mod Pacemaker
pub mod Proposer
pub mod Proposal
pub mod Pipeline
pub mod Consensus
pub mod Runtime
pub mod Network
pub mod Dag
pub mod StateSync
pub mod Reconfig
mod Tests
