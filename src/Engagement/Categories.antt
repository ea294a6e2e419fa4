-- ===== src/Engagement/Categories.antt =====
-- server/internal/store/post_engagement_store.go: the categories of bookmarks, and the engagement of
-- a viewer with posts.
use Prim.Native.Char.{Char, code}
use Prim.Native.String.{count as rune_count}
use gaggle.Prelude.{
  ℕ, zero, suc, Bool, true, false, ◌&&◌, ◌||◌, String, List, [], ◌∷◌, ◌++◌, Option, none, some,
  ◌==◌, ltb, str_eq, if◌then◌else◌, find, count, select, update, delete, any, map,
}
use gaggle.AppErrors.{ok, err, no_cause, other_cause, already_exists_error, not_found_error}
use gaggle.Database.{
  Engagement, BookmarkCategory, PostBookmark, M, database_error, reach, query, next_serial, pure,
  ◌>>=◌, ◌>>◌,
}
use gaggle.Posts.{in_range}
use gaggle.Engagement.Store.{is_of, is_mark, owns_category}

-- [0-9a-fA-F]
abbrev is_hex : Char → Bool
is_hex c = in_range 48 (code c) 57 || in_range 65 (code c) 70 || in_range 97 (code c) 102

hex_run : ℕ → String → Bool
hex_run zero String.[] = true
hex_run zero (String.◌∷◌ c s) = false
hex_run (suc n) String.[] = false
hex_run (suc n) (String.◌∷◌ c s) = is_hex c && hex_run n s

-- `IsHexColor`: ^#[0-9a-fA-F]{6}$
unfoldable pub is_hex_color : String → Bool
unfolding hex_run
is_hex_color String.[] = false
is_hex_color (String.◌∷◌ c s) = code c == b'#' && hex_run 6 s

abbrev pub is_category : ℕ → String → BookmarkCategory → Bool
is_category user_id name c = c.user_id == user_id && str_eq c.category_name name

-- The UNIQUE key is code 23505; the widths of the columns and the user's key are other errors.
abbrev pub insert_category : BookmarkCategory → M BookmarkCategory
insert_category c w =
    let t = w.db.engagements in
    if ltb 50 (rune_count c.category_name) || ltb 7 (rune_count c.color)
    then (err database_error, w)
    else if any (is_category c.user_id c.category_name) t.bookmark_categories
    then (
      err (already_exists_error "bookmark category name already exists for this user" other_cause),
      w,
    )
    else if any (λ u. u.id == c.user_id) w.db.users
    then (
      ok c,
      record w {
        db = record w.db {
          engagements = record t { bookmark_categories = t.bookmark_categories ++ c ∷ [] };
        };
      },
    )
    else (err database_error, w)

-- `CreateBookmarkCategory`
unfoldable pub create_category_row : ℕ → String → String → M BookmarkCategory
create_category_row user_id category_name color = do
  reach
  id ← next_serial
  λ w.
      insert_category
        (record {
          category_id = id;
          user_id = user_id;
          category_name = category_name;
          color = color;
          created_at = w.now;
        })
        w

-- A category and its BookmarksCount.
pub record CategoryView : Type 0 where
  pub category : BookmarkCategory
  pub bookmarks_count : ℕ

abbrev pub is_in_category : ℕ → PostBookmark → Bool
is_in_category category_id b = elim b.category_id [ none ↦ false | some id ↦ id == category_id ]

abbrev with_count : List PostBookmark → BookmarkCategory → CategoryView
with_count bookmarks c = record {
  category = c;
  bookmarks_count = count (λ b. b.user_id == c.user_id && is_in_category c.category_id b) bookmarks;
}

-- ORDER BY created_at ASC
abbrev insert_oldest : BookmarkCategory → List BookmarkCategory → List BookmarkCategory
insert_oldest c [] = c ∷ []
insert_oldest c (d ∷ ds) =
    let rest = insert_oldest c ds in if ltb d.created_at c.created_at then d ∷ rest else c ∷ d ∷ ds

abbrev pub oldest_first : List BookmarkCategory → List BookmarkCategory
oldest_first [] = []
oldest_first (c ∷ cs) = insert_oldest c (oldest_first cs)

-- `ListBookmarkCategories`
unfoldable pub list_bookmark_categories : ℕ → M (List CategoryView)
list_bookmark_categories user_id = query λ d.
    map (with_count d.engagements.post_bookmarks)
      (oldest_first (select (λ c. c.user_id == user_id) d.engagements.bookmark_categories))

abbrev pub is_uncategorized : ℕ → PostBookmark → Bool
is_uncategorized user_id b =
    b.user_id == user_id && elim b.category_id [ none ↦ true | some _ ↦ false ]

-- `GetUncategorizedBookmarkCount`
unfoldable pub get_uncategorized_bookmark_count : ℕ → M ℕ
get_uncategorized_bookmark_count user_id =
    query (λ d. count (is_uncategorized user_id) d.engagements.post_bookmarks)

-- `DeleteBookmarkCategory`; ON DELETE SET NULL on the bookmarks.
unfoldable pub delete_category_row : ℕ → ℕ → M (Unit {0})
delete_category_row user_id category_id = do
  reach
  λ w.
      let t = w.db.engagements in
      if any (owns_category category_id user_id) t.bookmark_categories
      then (
        ok tt,
        record w {
          db = record w.db {
            engagements = record t {
              bookmark_categories =
                  delete (owns_category category_id user_id) t.bookmark_categories;
              post_bookmarks =
                  update (is_in_category category_id) (λ b. record b { category_id = none })
                    t.post_bookmarks;
            };
          };
        },
      )
      else (err (not_found_error "bookmark category not found" no_cause), w)

-- The viewer's part of `PostEngagement`; a category is its id and its name.
pub record PostEngagement : Type 0 where
  pub is_liked : Bool
  pub is_reposted : Bool
  pub is_bookmarked : Bool
  pub bookmark_category : Option (ℕ × String)

-- The LEFT JOIN on the categories.
abbrev pub category_of : List BookmarkCategory → Option PostBookmark → Option (ℕ × String)
category_of categories none = none
category_of categories (some b) = elim b.category_id [
  | none ↦ none
  | some id ↦ elim (find (λ c. c.category_id == id) categories) [
    | none ↦ none
    | some c ↦ some (c.category_id, c.category_name)
  ]
]

abbrev pub engagement_of :
    List Engagement
    → List Engagement
    → List PostBookmark
    → List BookmarkCategory
    → ℕ
    → ℕ
    → PostEngagement
engagement_of likes reposts bookmarks categories viewer_id post_id = record {
  is_liked = any (is_of post_id viewer_id) likes;
  is_reposted = any (is_of post_id viewer_id) reposts;
  is_bookmarked = any (is_mark post_id viewer_id) bookmarks;
  bookmark_category = category_of categories (find (is_mark post_id viewer_id) bookmarks);
}

abbrev pub no_engagement : PostEngagement
no_engagement = record {
  is_liked = false;
  is_reposted = false;
  is_bookmarked = false;
  bookmark_category = none;
}

-- `GetEngagementForPosts`, three queries: the engagement with each of the posts, where a post that
-- its map lacks has none.
unfoldable pub get_engagement_for_posts : List ℕ → ℕ → M (ℕ → PostEngagement)
get_engagement_for_posts [] viewer_id = pure (λ id. no_engagement)
get_engagement_for_posts (i ∷ ids) viewer_id = do
  likes ← query (λ d. d.engagements.post_likes)
  reposts ← query (λ d. d.engagements.post_reposts)
  joined ← query (λ d. d.engagements)
  pure λ id.
      if any (λ k. k == id) (i ∷ ids)
      then engagement_of likes reposts joined.post_bookmarks joined.bookmark_categories viewer_id id
      else no_engagement
