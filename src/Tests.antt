-- ===== src/Tests.antt =====
-- Runs at concrete inputs.
mod Samples
mod Feeds
mod Prices
mod Pool
mod Engine
mod Node
mod Position
mod Service
mod Ledger
mod Orchestrator
mod Commands
