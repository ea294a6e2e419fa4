-- ===== src/Sessions.antt =====
-- Tokens and sessions: server/internal/auth/jwt.go and crypto.go in `Tokens`,
-- server/internal/store/auth_store.go in `Store`, and the session half of
-- server/internal/service/auth_service.go in `Service`.
mod Tokens
mod Store
mod Service
pub mod Rows
pub mod Family
pub mod Refresh
pub mod Runs
pub mod Endings
pub mod Signing
mod Examples
unfoldable pub use Tokens.*
unfoldable pub use Store.*
unfoldable pub use Service.*
