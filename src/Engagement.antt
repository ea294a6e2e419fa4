-- ===== src/Engagement.antt =====
-- Likes, reposts, bookmarks and views: server/internal/store/post_engagement_store.go in `Store` and
-- `Categories`, server/internal/service/post_engagement_service.go in `Service`.
mod Store
mod Categories
mod Service
mod Listing
pub mod Counts
pub mod Runs
pub mod Owners
pub mod Undo
mod Examples
unfoldable pub use Store.*
unfoldable pub use Categories.*
unfoldable pub use Listing.*
unfoldable pub use Service.*
