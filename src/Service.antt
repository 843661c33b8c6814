-- ===== src/Service.antt =====
-- services/raydium-clmm-orchestrator/src/main.rs: the commands that create pools, run users over them
-- and configure the program.
pub mod Types
pub mod Mints
pub mod Transfers
pub mod Reclaim
pub mod Users
pub mod Commands
pub mod Returns
pub mod Counts
pub mod Pairs
pub mod Totals
pub mod Whole
pub mod Balances
