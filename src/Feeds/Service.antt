-- ===== src/Feeds/Service.antt =====
-- server/internal/service/post_service.go: the readers of the feeds. The loaders of media,
-- engagement, polls, news and parents change no table, and what they attach is not in the rows: one
-- statement that may fail stands for them; each of them returns at once where there is no post.
use gaggle.Prelude.{ℕ, Bool, List, [], ◌∷◌, String, Option, none, some, map, ℤ}
use gaggle.Database.{Post, M, reach, pure, ◌>>=◌, ◌>>◌}
use gaggle.Accounts.{get_by_id}
use gaggle.Posts.{get_post, filter_visible_posts}
use gaggle.Pages.{CursorText, validate_and_normalize_limit}
use gaggle.Lists.{get_list}
use gaggle.Feeds.Store.{
  PostFeed, get_list_feed, get_home_feed, get_user_feed, run_user_feed_query, get_descendants,
  get_quotes_feed, get_liked_posts_feed, get_bookmarked_posts_feed,
}

abbrev pub hydrate : List Post → M (Unit {0})
hydrate [] = pure tt
hydrate (_ ∷ _) = reach

-- A filter that panics leaves no feed.
abbrev pub with_items : PostFeed → Option (List Post) → Option PostFeed
with_items feed none = none
with_items feed (some posts) = some (record feed { items = posts })

-- What every reader does with the feed of the store; none is a panic.
unfoldable pub serve_feed : ℕ → PostFeed → M (Option PostFeed)
serve_feed viewer_id feed = do
  hydrate feed.items
  visible ← filter_visible_posts (map some feed.items) viewer_id
  pure (with_items feed visible)

-- The two limits of the configuration.
module _ (default_limit max_limit : ℕ) where
  abbrev normalized : ℤ → ℕ
  normalized limit = validate_and_normalize_limit limit default_limit max_limit

  -- `GetHomeFeed`
  unfoldable pub home_feed : ℕ → ℤ → CursorText → M (Option PostFeed)
  home_feed user_id limit c = do
    get_by_id user_id
    feed ← get_home_feed user_id (normalized limit) c
    serve_feed user_id feed

  -- `GetUserFeed`
  unfoldable pub user_feed : ℕ → ℕ → Bool → ℤ → CursorText → M (Option PostFeed)
  user_feed user_id viewer_id include_replies limit c = do
    get_by_id user_id
    feed ← get_user_feed user_id include_replies (normalized limit) c
    serve_feed viewer_id feed

  -- `userModeFeed`
  unfoldable pub user_mode_feed : ℕ → ℕ → String → ℤ → CursorText → M (Option PostFeed)
  user_mode_feed user_id viewer_id mode limit c = do
    get_by_id user_id
    feed ← run_user_feed_query user_id mode (normalized limit) c
    serve_feed viewer_id feed

  -- `GetDescendants`
  unfoldable pub descendants : ℕ → ℕ → ℤ → CursorText → M (Option PostFeed)
  descendants post_id viewer_id limit c = do
    get_post post_id
    feed ← get_descendants post_id (normalized limit) c
    serve_feed viewer_id feed

-- `GetListFeed` of the list service, whose limits are its own.
unfoldable pub list_feed_posts : ℕ → ℕ → ℤ → CursorText → M (Option PostFeed)
list_feed_posts viewer_id list_id limit c = do
  get_list list_id
  feed ← get_list_feed list_id (validate_and_normalize_limit limit 20 100) c
  serve_feed viewer_id feed

-- `GetBookmarkedPostsFeed`
unfoldable pub bookmarked_posts_feed : ℕ → ℕ → List ℕ → Bool → ℕ → CursorText → M (Option PostFeed)
bookmarked_posts_feed user_id viewer_id category_ids include_uncategorized limit c = do
  feed ← get_bookmarked_posts_feed user_id category_ids include_uncategorized limit c
  serve_feed viewer_id feed

-- `GetLikedPostsFeed`
unfoldable pub liked_posts_feed : ℕ → ℕ → ℕ → CursorText → M (Option PostFeed)
liked_posts_feed user_id viewer_id limit c = do
  feed ← get_liked_posts_feed user_id limit c
  serve_feed viewer_id feed

-- `GetQuotesFeed`
unfoldable pub quotes_feed : ℕ → ℕ → ℕ → CursorText → M (Option PostFeed)
quotes_feed post_id viewer_id limit c = do
  get_post post_id
  feed ← get_quotes_feed post_id limit c
  serve_feed viewer_id feed
