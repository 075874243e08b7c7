-- ===== src/Consensus.antt =====
-- axo_endpoint/core/consensus: leader election, the replicated state, dirty tracking, the
-- concurrency ledger and the consistency sweep of job results.
pub mod Elector
pub mod StateMachine
pub mod DirtyTracker
pub mod Sync
pub mod Ledger
pub mod ResultConsistency
pub mod Loop
