-- ===== src/Feeds.antt =====
-- The feeds of server/internal/store/post_store.go and their readers in
-- server/internal/service/post_service.go.
mod Store
mod Service
pub mod Rows
mod Steps
pub mod Follow
pub mod Audience
pub mod Replies
mod Examples
unfoldable pub use Store.*
unfoldable pub use Service.*
