-- ===== src/Feeds/Store.antt =====
-- server/internal/store/post_store.go: the feeds. A SELECT … WHERE … ORDER BY … LIMIT is read as the
-- first rows that fit, of the table in that order; where ORDER BY names only created_at, rows of
-- one time stand in the order of their ids, which is one of the orders that the database may take.
-- Times are microseconds, the resolution of the columns.
use Prim.Native.Nat.{◌/◌}
use gaggle.Prelude.{
  ℕ, ◌+◌, ◌*◌, Bool, true, false, not, ◌&&◌, ◌||◌, String, List, [], ◌∷◌, Option, none, some, ◌==◌,
  ltb, str_eq, if◌then◌else◌, select, any, map, length, take,
}
use gaggle.AppErrors.{ok, err, bad_request_error, no_cause, other_cause}
use gaggle.Database.{Post, Engagement, PostBookmark, Db, M, query, pure, raise, ◌>>=◌}
use gaggle.Relationships.{is_row}
use gaggle.Posts.{get_post, get_full_post_by_id}
use gaggle.Lists.{is_member}
use gaggle.Pages.{
  CursorText, no_cursor, create_timestamp_cursor, decode_cursor, encode_cursor, is_before,
  newest_first,
}

pub record PostFeed : Type 0 where
  pub items : List Post
  pub has_more : Bool
  pub next_cursor : CursorText

-- The time and the id of a cursor that decodes and has a time.
abbrev pub require_cursor : CursorText → M (Option (ℕ × ℕ))
require_cursor text = elim (decode_cursor text) [
  | none ↦ raise (bad_request_error "invalid cursor" other_cause)
  | some none ↦ pure none
  | some (some c) ↦ elim c.timestamp [
    | none ↦ raise (bad_request_error "invalid cursor data" no_cause)
    | some t ↦ pure (some (t, c.id))
  ]
]

-- (p.created_at, p.post_id) < ($2, $3)
abbrev pub is_behind : Option (ℕ × ℕ) → Post → Bool
is_behind none p = true
is_behind (some (t, i)) p = is_before Post.created_at Post.id t i p

-- The hydration of the rows, one after the other.
unfoldable pub load_full : List ℕ → M (List Post)
load_full [] = pure []
load_full (id ∷ ids) = do post ← get_full_post_by_id id; posts ← load_full ids; pure (post ∷ posts)

abbrev pub last {ℓ} : {A : Type ℓ} → List A → Option A
last [] = none
last (x ∷ []) = some x
last (x ∷ y ∷ xs) = last (y ∷ xs)

-- The cursor after the last post, in the format of its time; an error of GetByID leaves none.
abbrev pub cursor_after : (ℕ → ℕ) → Option ℕ → M CursorText
cursor_after format none w = pure no_cursor w
cursor_after format (some id) w =
    let (r, w') = get_post id w in
    (
      ok (elim r [
        | ok p ↦ encode_cursor (create_timestamp_cursor p.id (format p.created_at))
        | err e ↦ no_cursor
      ]),
      w',
    )

-- `buildFeedFromPostIDs`, which the feeds that do not call it repeat.
unfoldable pub build_feed_from_post_ids : (ℕ → ℕ) → List ℕ → ℕ → M PostFeed
build_feed_from_post_ids format ids limit = do
  posts ← load_full ids
  next ← cursor_after format (if length ids == limit then last ids else none)
  pure (record { items = posts; has_more = length ids == limit; next_cursor = next })

-- time.RFC3339Nano
abbrev pub in_full : ℕ → ℕ
in_full t = t

-- time.RFC3339: whole seconds.
abbrev pub in_seconds : ℕ → ℕ
in_seconds t = 1_000_000 * (t / 1_000_000)

-- A keyset page: the rows that fit, behind the cursor, newest first.
unfoldable pub keyset_feed : (Db → Post → Bool) → ℕ → CursorText → M PostFeed
keyset_feed fits limit cursor = do
  key ← require_cursor cursor
  rows ← query λ d.
      take (limit + 1)
        (select (λ p. fits d p && is_behind key p) (newest_first Post.created_at Post.id d.posts))
  build_feed_from_post_ids in_full (take limit (map Post.id rows)) limit

abbrev is_top_level : Post → Bool
is_top_level p = elim p.parent_id [ none ↦ true | some _ ↦ false ]

abbrev pub is_home : ℕ → Db → Post → Bool
is_home user_id d p =
    not p.soft_deleted
    && is_top_level p
    && (any (is_row user_id p.author_id "follow") d.relationships || p.author_id == user_id)

-- `GetHomeFeed`
unfoldable pub get_home_feed : ℕ → ℕ → CursorText → M PostFeed
get_home_feed user_id = keyset_feed (is_home user_id)

abbrev pub is_listed : ℕ → Db → Post → Bool
is_listed list_id d p =
    any (is_member list_id p.author_id) d.list_members && not p.soft_deleted && is_top_level p

-- `GetListFeed`
unfoldable pub get_list_feed : ℕ → ℕ → CursorText → M PostFeed
get_list_feed list_id = keyset_feed (is_listed list_id)

abbrev pub is_authored : ℕ → Bool → Db → Post → Bool
is_authored user_id include_replies d p =
    p.author_id == user_id && not p.soft_deleted && (include_replies || is_top_level p)

-- `GetUserFeed`
unfoldable pub get_user_feed : ℕ → Bool → ℕ → CursorText → M PostFeed
get_user_feed user_id include_replies = keyset_feed (is_authored user_id include_replies)

abbrev is_mode : String → Db → Post → Bool
is_mode mode d p =
    if str_eq mode "replies"
    then not (is_top_level p)
    else if str_eq mode "media"
    then any (λ m. m.post_id == p.id) d.post_tables.post_media
    else is_top_level p

-- The WHERE of `buildUserFeedQuery`.
abbrev pub is_mode_post : ℕ → String → Db → Post → Bool
is_mode_post user_id mode d p = p.author_id == user_id && not p.soft_deleted && is_mode mode d p

-- `runUserFeedQuery`
unfoldable pub run_user_feed_query : ℕ → String → ℕ → CursorText → M PostFeed
run_user_feed_query user_id mode = keyset_feed (is_mode_post user_id mode)

-- `created_at < $2`
abbrev pub is_earlier : Option (ℕ × ℕ) → ℕ → Bool
is_earlier none t = true
is_earlier (some (limit, _)) t = ltb t limit

abbrev pub is_reply_to : ℕ → Post → Bool
is_reply_to post_id p = elim p.parent_id [ none ↦ false | some id ↦ id == post_id ]

-- `GetDescendants`
unfoldable pub get_descendants : ℕ → ℕ → CursorText → M PostFeed
get_descendants post_id limit cursor = do
  key ← require_cursor cursor
  rows ← query λ d. take (limit + 1) (
      select (λ p. is_reply_to post_id p && is_earlier key p.created_at)
        (newest_first Post.created_at Post.id d.posts))
  build_feed_from_post_ids in_full (take limit (map Post.id rows)) limit

-- `GetQuotesFeed`
unfoldable pub get_quotes_feed : ℕ → ℕ → CursorText → M PostFeed
get_quotes_feed post_id limit cursor = do
  key ← require_cursor cursor
  rows ← query λ d. take (limit + 1) (
      select
        (λ p.
          elim p.quoted_post_id [ none ↦ false | some id ↦ id == post_id ]
          && not p.soft_deleted
          && is_earlier key p.created_at)
        (newest_first Post.created_at Post.id d.posts))
  build_feed_from_post_ids in_seconds (take limit (map Post.id rows)) limit

-- The end of the two feeds below: each row is the post's id and the time of the like or bookmark.
abbrev pub finish_timed : ℕ → List (ℕ × ℕ) → M PostFeed
finish_timed limit rows = do
  posts ← load_full (map (λ r. r.0) rows)
  pure (record {
    items = posts;
    has_more = length rows == limit;
    next_cursor = elim (if length rows == limit then last rows else none) [
      | none ↦ no_cursor
      | some (id, t) ↦ encode_cursor (create_timestamp_cursor id (in_seconds t))
    ];
  })

abbrev is_live : Db → ℕ → Bool
is_live d post_id = any (λ p. p.id == post_id && not p.soft_deleted) d.posts

-- `GetLikedPostsFeed`
unfoldable pub get_liked_posts_feed : ℕ → ℕ → CursorText → M PostFeed
get_liked_posts_feed user_id limit cursor = do
  key ← require_cursor cursor
  rows ← query λ d. take (limit + 1) (
      select (λ l. l.user_id == user_id && is_live d l.post_id && is_earlier key l.created_at)
        (newest_first Engagement.created_at Engagement.id d.engagements.post_likes))
  finish_timed limit (take limit (map (λ l. (l.post_id, l.created_at)) rows))

-- The categories that the query asks for; with no id and no wish for the rest, all.
abbrev in_categories : List ℕ → Bool → PostBookmark → Bool
in_categories [] true b = elim b.category_id [ none ↦ true | some _ ↦ false ]
in_categories [] false b = true
in_categories (c ∷ cs) uncategorized b = elim b.category_id [
  | none ↦ uncategorized
  | some id ↦ any (λ k. k == id) (c ∷ cs)
]

-- `GetBookmarkedPostsFeed`
unfoldable pub get_bookmarked_posts_feed : ℕ → List ℕ → Bool → ℕ → CursorText → M PostFeed
get_bookmarked_posts_feed user_id category_ids include_uncategorized limit cursor = do
  key ← require_cursor cursor
  rows ← query λ d. take (limit + 1) (
      select
        (λ b.
          b.user_id == user_id
          && is_live d b.post_id
          && in_categories category_ids include_uncategorized b
          && is_earlier key b.created_at)
        (newest_first PostBookmark.created_at PostBookmark.bookmark_id
          d.engagements.post_bookmarks))
  finish_timed limit (take limit (map (λ b. (b.post_id, b.created_at)) rows))
