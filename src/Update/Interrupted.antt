-- ===== src/Update/Interrupted.antt =====
-- src/update_transaction.rs: a recovery that fails or is interrupted anywhere.
pub mod Outcomes
mod Steps
mod Rollback
pub mod Runs
