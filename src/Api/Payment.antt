-- ===== src/Api/Payment.antt =====
-- apps/api/internal/domain/payment: payment intents, their submission and their cancellation.
pub mod Types
pub mod Store
pub mod Service
pub mod Handlers
pub mod Table
pub mod Laws
pub mod Submit
pub mod Runs
pub mod History
pub mod Owners
pub mod Repeats
mod Tests
