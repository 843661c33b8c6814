-- ===== src/Math.antt =====
-- crates/mtm-math/src/lib.rs: the fixed-point price.
pub mod Price
pub mod Scale
pub mod Text
pub mod Digits
pub mod Printing
