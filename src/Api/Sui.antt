-- ===== src/Api/Sui.antt =====
-- apps/api/internal/sui: the multisig of the sponsoring operators.
pub mod Multisig
pub mod Decoding
pub mod Reading
pub mod Sponsor
pub mod Signers
mod Tests
