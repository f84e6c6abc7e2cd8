-- ===== src/Api/Deposit.antt =====
-- apps/api/internal/domain/deposit: Bridge's webhook events the deposits made of them, and how a user may deposit.
pub mod Store
pub mod Pipeline
pub mod Webhook
pub mod History
pub mod Processing
pub mod Runs
pub mod Statements
pub mod Bridge
pub mod Options
pub mod Shown
pub mod Added
pub mod Listing
pub mod Gate
pub mod Growth
mod Tests
mod OptionsTests
