-- ===== src/Proposal.antt =====
-- The proposal generator: consensus-core/src/proposal/generator.rs.
use aptosbft.Common.{ℕ, Bool, true, if◌then◌else◌, u64, Option, none, some, List, Result, ok}
use aptosbft.Traits.{Traits, Error}

pub record ProposalConfig : Type 0 where
  pub max_block_txns : ℕ
  pub max_block_bytes : ℕ
  pub include_timestamp : Bool

-- `ProposalConfig::default`.
abbrev pub default_config : ProposalConfig
default_config = record {
  max_block_txns = 10000;
  max_block_bytes = 10485760;
  include_timestamp = true;
}

pub record ProposalGenerator (T : Traits) : Type 0 where
  pub config : ProposalConfig
  pub author_id : T.NodeId

-- The system's clock: the milliseconds since the Unix epoch, or none before it.
abbrev pub Clock : Type 0
Clock = Option ℕ

-- `d.as_millis() as u64`, with `unwrap_or(0)`.
abbrev pub millis : Clock → ℕ
millis none = 0
millis (some ms) = u64 ms

module _ {T : Traits} where
  unfoldable pub new : ProposalConfig → T.NodeId → ProposalGenerator T
  new config author_id = record { config = config; author_id = author_id }

  -- `block_id` is the method of a certificate. Neither limit of the configuration is read.
  unfoldable pub generate_proposal {ℓ} :
      {Transaction : Type ℓ} (block_id : T.QuorumCert → T.Hash) (clock : Clock)
      → ProposalGenerator T
      → T.QuorumCert
      → ℕ
      → ℕ
      → List Transaction
      → (ProposalGenerator T → ℕ → ℕ → T.Hash → ℕ → List Transaction → T.Block)
      → Result Error T.Block
  generate_proposal block_id clock g parent_qc round epoch txns block_builder =
      let parent_id = block_id parent_qc in
      let timestamp = if g.config.include_timestamp then millis clock else 0 in
      ok (block_builder g round epoch parent_id timestamp txns)

  unfoldable pub update_config : ProposalGenerator T → ProposalConfig → ProposalGenerator T
  update_config g config = record g { config = config }
