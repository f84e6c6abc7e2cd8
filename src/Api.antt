-- ===== src/Api.antt =====
-- apps/api: the Go backend. One module for each package of internal/ that is modelled.
pub mod Errors
pub mod Rows
pub mod Replies
pub mod Wallets
pub mod Payment
pub mod Names
pub mod Nearby
pub mod Deposit
pub mod Sui
pub mod Avs
pub mod Auth
pub mod Idempotency
pub mod Router
