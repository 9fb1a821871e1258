-- ===== src/Worker.antt =====
-- parseon-core/src/worker: one poll of a chain, from the plans to the commits.
pub mod Windows
pub mod Query
pub mod Targets
pub mod Candidates
pub mod Matched
pub mod Effects
pub mod Prepare
pub mod Commit
pub mod Run
pub mod Order
pub mod Ready
pub mod Polls
