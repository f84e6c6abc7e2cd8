-- ===== src/Api/Names.antt =====
-- apps/api/internal/domain/names: the registration of leaf names, which the AVS authorises.
pub mod Types
pub mod Pattern
pub mod Service
pub mod Laws
mod Tests
