-- ===== src/Raydium.antt =====
-- crates/raydium-clmm-client: one concentrated-liquidity pool, action by action.
pub mod Types
pub mod External
pub mod Amounts
pub mod Slippage
pub mod Quote
pub mod Walk
pub mod Programs
pub mod Monad
pub mod Accounts
pub mod Addresses
pub mod Load
pub mod Liquidity
pub mod Position
pub mod Actions
pub mod Swap
pub mod Pools
pub mod Arrays
pub mod Once
pub mod Reading
pub mod Sent
pub mod Bounds
pub mod Limits
pub mod Outcomes
pub mod Deposits
pub mod Setup
pub mod Failures
