-- ===== src/Publishing.antt =====
-- Writing posts: server/internal/postutil in `Tags`, the writing half of
-- server/internal/store/post_store.go with the hashtags, mentions, media and news of a post in
-- `Store`, and the writing half of server/internal/service/post_service.go in `Service`.
mod Tags
mod Names
mod Rows
mod Store
mod Indexes
mod Service
pub mod Pins
pub mod Deletion
pub mod Editing
pub mod Indexing
mod Frames
pub mod Creation
mod Examples
unfoldable pub use Tags.*
unfoldable pub use Store.*
unfoldable pub use Indexes.*
unfoldable pub use Service.*
