-- ===== src/Search.antt =====
-- Posts found by their text, a hashtag or a mention.
mod Store
mod Service
pub mod Audience
mod Examples
unfoldable pub use Store.*
unfoldable pub use Service.*
