-- ===== src/Api/Auth.antt =====
-- apps/api/internal/domain/auth: signing in with Google, sessions and their tokens, and the middleware
-- that guards the other handlers.
pub mod Actions
pub mod Types
pub mod Store
pub mod Sessions
pub mod Google
pub mod Keys
pub mod Claims
pub mod Credentials
pub mod Login
pub mod Verify
pub mod Calls
pub mod Invariants
pub mod Keyed
pub mod Revoked
pub mod Window
pub mod States
pub mod Middleware
pub mod Nonces
mod Tests
pub mod Identities
pub mod SignIns
pub mod Handlers
pub mod Rotation
pub mod Stable
