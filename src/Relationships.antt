-- ===== src/Relationships.antt =====
-- Follows, blocks and mutes: server/internal/store/user_relationship_store.go in `Store`, the
-- service over it in `Service`, and what they promise.
mod Store
mod Service
pub mod Rows
pub mod Block
pub mod Keys
mod Examples
unfoldable pub use Store.*
unfoldable pub use Service.*
