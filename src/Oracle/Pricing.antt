-- ===== src/Oracle/Pricing.antt =====
-- services/oracle/src/pricing/mod.rs: the pricing engine.
pub mod State
pub mod Eval
pub mod Times
pub mod Build
pub mod Engine
pub mod Registry
pub mod Construction
pub mod Shape
pub mod Underlying
pub mod Clock
pub mod Window
