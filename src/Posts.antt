-- ===== src/Posts.antt =====
-- Posts: the rows that server/internal/store/post_store.go reads, who may see a post, and what a new
-- post must satisfy (server/internal/service/post_service.go).
mod Visibility
mod Validation
pub mod Filter
pub mod Names
pub mod Audience
pub mod Mentions
pub mod PollRules
mod Examples
unfoldable pub use Visibility.*
unfoldable pub use Validation.*
