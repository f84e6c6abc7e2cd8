-- ===== src/Api/Nearby.antt =====
-- apps/api/internal/domain/nearby: sessions between two users who stand near to each other.
pub mod Types
pub mod Service
pub mod Laws
pub mod Runs
pub mod History
pub mod Parties
mod Tests
