-- ===== src/Chain.antt =====
-- crates/mtm-chain/src/lib.rs: the submission of a transaction.
pub mod Submit
pub mod Sending
pub mod Once
pub mod Instructions
pub mod Attempts
