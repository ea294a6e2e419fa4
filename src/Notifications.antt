-- ===== src/Notifications.antt =====
-- Notifications: server/internal/store/notification_store.go in `Store` and
-- server/internal/service/notification_service.go in `Service`. The paged list is left out.
mod Store
mod Service
pub mod Silence
pub mod Unread
mod Examples
unfoldable pub use Store.*
unfoldable pub use Service.*
