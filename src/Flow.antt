-- ===== src/Flow.antt =====
-- crates/raydium-clmm-orchestrator/src/lib.rs: the flow of one user over one pool.
pub mod Bytes
pub mod Task
pub mod Types
pub mod Checks
pub mod Mints
pub mod Steps
pub mod Counting
pub mod Sent
pub mod Minting
pub mod Validity
pub mod Funding
