-- ===== src/Builder.antt =====
-- The bundle builder: crates/builder/src.
pub mod Assigner
pub mod Transactions
pub mod Tracker
pub mod States
pub mod Machine
pub mod Bundling
pub mod Sender
