-- ===== src/Api/Avs.antt =====
-- apps/api/internal/avs: the operators who authorise an action by a quorum of signatures.
pub mod Aggregator
pub mod Approvals
pub mod Requests
pub mod Client
pub mod Quorum
mod Tests
