-- ===== src/Search/Service.antt =====
-- server/internal/service/search_service.go, the three readers of posts.
use gaggle.Prelude.{ℕ, Bool, not, String, Option, none, some, ltb, str_eq, map, ℤ, false}
use gaggle.AppErrors.{no_cause, bad_request_error}
use gaggle.Database.{Post, M, pure, raise_if, ◌>>=◌, ◌>>◌}
use gaggle.Posts.{trim_space}
use gaggle.Publishing.{lower_text}
use gaggle.Pages.{CursorText, validate_and_normalize_limit}
use gaggle.Feeds.{PostFeed, load_full, serve_feed}
use gaggle.Search.Store.{
  PostSearchFilters, trim_hash, search_posts, list_by_hashtag, list_mentioned_by,
}

-- `hydrateFeed`; none is a panic.
unfoldable pub hydrate_feed : ℕ → Option PostFeed → M (Option PostFeed)
hydrate_feed viewer_id none = pure none
hydrate_feed viewer_id (some feed) = do
  full ← load_full (map Post.id feed.items)
  serve_feed viewer_id (record feed { items = full })

-- Until is there and not after Since.
abbrev pub is_backward : Option ℕ → Option ℕ → Bool
is_backward none until = false
is_backward (some since) none = false
is_backward (some since) (some until) = not (ltb since until)

-- The two limits of the configuration.
module _ (default_limit max_limit : ℕ) where
  -- `HashtagPosts`
  unfoldable pub hashtag_posts : ℕ → String → ℤ → CursorText → M (Option PostFeed)
  hashtag_posts viewer_id name limit cursor = do
    let tag = trim_hash (lower_text (trim_space name))
    raise_if (str_eq tag "") (bad_request_error "hashtag is required" no_cause)
    feed ← list_by_hashtag tag (validate_and_normalize_limit limit default_limit max_limit) cursor
    hydrate_feed viewer_id feed

  -- `Mentions`
  unfoldable pub mentioning_posts : ℕ → ℤ → CursorText → M (Option PostFeed)
  mentioning_posts viewer_id limit cursor = do
    feed ←
        list_mentioned_by viewer_id (validate_and_normalize_limit limit default_limit max_limit)
          cursor
    hydrate_feed viewer_id feed

  module _ (ilike : String → String → Bool) where
    -- `Posts`
    unfoldable pub found_posts :
        ℕ → String → PostSearchFilters → ℤ → CursorText → M (Option PostFeed)
    found_posts viewer_id text filters limit cursor = do
      raise_if (str_eq (trim_space text) "") (bad_request_error "search query is required" no_cause)
      raise_if (is_backward filters.since filters.until)
          (bad_request_error "until must be after since" no_cause)
      feed ←
          search_posts ilike (trim_space text) filters
            (validate_and_normalize_limit limit default_limit max_limit) cursor
      hydrate_feed viewer_id feed
