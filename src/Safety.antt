-- ===== src/Safety.antt =====
-- The two-chain safety rules: consensus-core/src/safety_rules/, and the trait `SafetyRules` of
-- consensus-traits/src/safety.rs.
pub mod State
pub mod Decision
pub mod Rules
pub mod Voting
pub mod Lock
pub mod History
pub mod Commit
pub mod Recovery
pub mod Interface
