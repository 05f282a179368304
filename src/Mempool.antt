-- ===== src/Mempool.antt =====
-- The mempool: crates/pool/src/mempool.
pub mod Reputation
pub mod Paymaster
pub mod EntityTracker
pub mod Pool
pub mod Admission
pub mod Upkeep
pub mod Calls
pub mod ChainUpdate
pub mod UoPool
pub mod Requests
pub mod Screening
pub mod Submission
pub mod Histories
