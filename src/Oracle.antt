-- ===== src/Oracle.antt =====
-- services/oracle and crates/oracle-client: the price service.
pub mod Types
pub mod Spec
pub mod Config
pub mod Floats
pub mod Pricing
pub mod Store
pub mod Run
pub mod Startup
pub mod Serving
pub mod Binance
pub mod Coalescing
pub mod Hermes
pub mod Polling
