-- ===== src/Safety/Decision.antt =====
-- The helper type of commits: `CommitDecision` of consensus-traits/src/safety.rs.
use aptosbft.Common.{Bool, true, false, Option, none, some}

pub data CommitDecision {ℓ} (H : Type ℓ) : Type ℓ where
  no_commit : CommitDecision H
  commit : H → CommitDecision H

module _ {ℓ} {H : Type ℓ} where
  abbrev pub committed_id : CommitDecision H → Option H
  committed_id no_commit = none
  committed_id (commit id) = some id

  abbrev pub is_commit : CommitDecision H → Bool
  is_commit no_commit = false
  is_commit (commit id) = true
