-- ===== src/Messages.antt =====
-- Direct messages: server/internal/store/dm_store.go in `Store`, server/internal/service/dm_service.go
-- in `Service`. The profile that every user has is not modelled, and the paged history is left out.
mod Store
mod Service
pub mod Guards
pub mod Sending
pub mod Delivery
pub mod Reading
mod Examples
unfoldable pub use Store.*
unfoldable pub use Service.*
