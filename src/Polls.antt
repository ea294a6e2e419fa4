-- ===== src/Polls.antt =====
-- Polls: server/internal/store/poll_store.go, and VotePoll of
-- server/internal/service/post_service.go.
mod Store
pub mod Votes
pub mod Tally
pub mod Creation
mod Examples
unfoldable pub use Store.*
