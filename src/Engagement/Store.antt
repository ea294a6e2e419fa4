-- ===== src/Engagement/Store.antt =====
-- server/internal/store/post_engagement_store.go: likes, reposts, bookmarks and views, with the
-- constraints and the triggers of migrations 000007 and 000019. A trigger on DELETE runs for each
-- row.
use gaggle.Prelude.{
  String, ℕ, ◌+◌, ◌-◌, Bool, true, false, not, ◌&&◌, List, [], ◌∷◌, ◌++◌, Option, none, some, ◌==◌,
  if◌then◌else◌, count, update, delete, any,
}
use gaggle.AppErrors.{ok, err, no_cause, bad_request_error}
use gaggle.Database.{
  Post, Engagement, BookmarkCategory, PostBookmark, PostView, EngagementTables, Db, M,
  database_error, reach, query, next_serial, pure, raise_if, ◌>>=◌, ◌>>◌,
}
use gaggle.Publishing.{has_id}

abbrev pub is_of : ℕ → ℕ → Engagement → Bool
is_of post_id user_id l = l.post_id == post_id && l.user_id == user_id

abbrev pub is_mark : ℕ → ℕ → PostBookmark → Bool
is_mark post_id user_id b = b.post_id == post_id && b.user_id == user_id

abbrev pub is_seen_by : ℕ → ℕ → PostView → Bool
is_seen_by post_id user_id v =
    v.post_id == post_id && elim v.user_id [ none ↦ false | some u ↦ u == user_id ]

-- The post's key and the user's.
abbrev pub has_keys : Db → ℕ → ℕ → Bool
has_keys d post_id user_id = any (has_id post_id) d.posts && any (λ u. u.id == user_id) d.users

abbrev pub add_likes : ℕ → Post → Post
add_likes n p = record p { likes_count = p.likes_count + n }

abbrev pub drop_likes : ℕ → Post → Post
drop_likes n p = record p { likes_count = p.likes_count - n }

abbrev pub add_reposts : ℕ → Post → Post
add_reposts n p = record p { reposts_count = p.reposts_count + n }

abbrev pub drop_reposts : ℕ → Post → Post
drop_reposts n p = record p { reposts_count = p.reposts_count - n }

abbrev pub add_bookmarks : ℕ → Post → Post
add_bookmarks n p = record p { bookmarks_count = p.bookmarks_count + n }

abbrev pub drop_bookmarks : ℕ → Post → Post
drop_bookmarks n p = record p { bookmarks_count = p.bookmarks_count - n }

abbrev pub add_views : ℕ → Post → Post
add_views n p = record p { views_count = p.views_count + n }

-- The tables after a change of one of them and of the counts of one post.
abbrev pub with_counts : ℕ → (Post → Post) → EngagementTables → Db → Db
with_counts post_id f t d = record d { posts = update (has_id post_id) f d.posts; engagements = t }

abbrev pub new_engagement : ℕ → ℕ → ℕ → ℕ → Engagement
new_engagement id post_id user_id now = record {
  id = id;
  post_id = post_id;
  user_id = user_id;
  created_at = now;
}

-- INSERT … ON CONFLICT DO NOTHING: whether a row is new.
abbrev pub insert_like : ℕ → ℕ → ℕ → M Bool
insert_like post_id user_id id w =
    let t = w.db.engagements in
    if any (is_of post_id user_id) t.post_likes
    then (ok false, w)
    else if has_keys w.db post_id user_id
    then (
      ok true,
      record w {
        db =
            with_counts post_id (add_likes 1)
              (record t {
                post_likes = t.post_likes ++ new_engagement id post_id user_id w.now ∷ [];
              })
              w.db;
      },
    )
    else (err database_error, w)

-- `Like`
unfoldable pub like_row : ℕ → ℕ → M Bool
like_row post_id user_id = do reach; id ← next_serial; insert_like post_id user_id id

-- `Unlike`
unfoldable pub unlike_row : ℕ → ℕ → M (Unit {0})
unlike_row post_id user_id = do
  reach
  λ w.
      let t = w.db.engagements in
      (
        ok tt,
        record w {
          db =
              with_counts post_id (drop_likes (count (is_of post_id user_id) t.post_likes))
                (record t { post_likes = delete (is_of post_id user_id) t.post_likes }) w.db;
        },
      )

abbrev pub insert_repost : ℕ → ℕ → ℕ → M Bool
insert_repost post_id user_id id w =
    let t = w.db.engagements in
    if any (is_of post_id user_id) t.post_reposts
    then (ok false, w)
    else if has_keys w.db post_id user_id
    then (
      ok true,
      record w {
        db =
            with_counts post_id (add_reposts 1)
              (record t {
                post_reposts = t.post_reposts ++ new_engagement id post_id user_id w.now ∷ [];
              })
              w.db;
      },
    )
    else (err database_error, w)

-- `Repost`
unfoldable pub repost_row : ℕ → ℕ → M Bool
repost_row post_id user_id = do reach; id ← next_serial; insert_repost post_id user_id id

-- `Unrepost`
unfoldable pub unrepost_row : ℕ → ℕ → M (Unit {0})
unrepost_row post_id user_id = do
  reach
  λ w.
      let t = w.db.engagements in
      (
        ok tt,
        record w {
          db =
              with_counts post_id (drop_reposts (count (is_of post_id user_id) t.post_reposts))
                (record t { post_reposts = delete (is_of post_id user_id) t.post_reposts }) w.db;
        },
      )

abbrev pub owns_category : ℕ → ℕ → BookmarkCategory → Bool
owns_category category_id user_id c = c.category_id == category_id && c.user_id == user_id

-- The check on the category, if one is given.
abbrev pub check_category : ℕ → Option ℕ → M (Unit {0})
check_category user_id none = pure tt
check_category user_id (some category_id) = do
  n ← query (λ d. count (owns_category category_id user_id) d.engagements.bookmark_categories)
  raise_if (n == 0) (
      bad_request_error "invalid bookmark category: does not exist or does not belong to user"
        no_cause)

-- The key of the category, which may be NULL.
abbrev pub category_exists : Db → Option ℕ → Bool
category_exists d none = true
category_exists d (some id) = any (λ c. c.category_id == id) d.engagements.bookmark_categories

-- ON CONFLICT (post_id, user_id) DO UPDATE
abbrev pub upsert_bookmark : ℕ → ℕ → Option ℕ → ℕ → M (Unit {0})
upsert_bookmark post_id user_id category_id id w =
    let t = w.db.engagements in
    if not (category_exists w.db category_id)
    then (err database_error, w)
    else if any (is_mark post_id user_id) t.post_bookmarks
    then (
      ok tt,
      record w {
        db = record w.db {
          engagements = record t {
            post_bookmarks =
                update (is_mark post_id user_id)
                  (λ b. record b { category_id = category_id; created_at = w.now })
                  t.post_bookmarks;
          };
        };
      },
    )
    else if has_keys w.db post_id user_id
    then (
      ok tt,
      record w {
        db =
            with_counts post_id (add_bookmarks 1)
              (record t {
                post_bookmarks =
                    t.post_bookmarks
                    ++ record {
                      bookmark_id = id;
                      post_id = post_id;
                      user_id = user_id;
                      category_id = category_id;
                      created_at = w.now;
                    }
                      ∷ [];
              })
              w.db;
      },
    )
    else (err database_error, w)

-- `Bookmark`
unfoldable pub bookmark_row : ℕ → ℕ → Option ℕ → M (Unit {0})
bookmark_row post_id user_id category_id = do
  check_category user_id category_id
  reach
  id ← next_serial
  upsert_bookmark post_id user_id category_id id

-- `Unbookmark`
unfoldable pub unbookmark_row : ℕ → ℕ → M (Unit {0})
unbookmark_row post_id user_id = do
  reach
  λ w.
      let t = w.db.engagements in
      (
        ok tt,
        record w {
          db =
              with_counts post_id
                (drop_bookmarks (count (is_mark post_id user_id) t.post_bookmarks))
                (record t { post_bookmarks = delete (is_mark post_id user_id) t.post_bookmarks })
                w.db;
        },
      )

abbrev pub has_seen : List PostView → ℕ → Option ℕ → Bool
has_seen views post_id none = false
has_seen views post_id (some user_id) = any (is_seen_by post_id user_id) views

abbrev pub user_exists : Db → Option ℕ → Bool
user_exists d none = true
user_exists d (some id) = any (λ u. u.id == id) d.users

-- What PostgreSQL reads as an INET is a parameter. The agent is a column that nothing reads.
module _ (is_inet : String → Bool) where
  abbrev pub insert_view : ℕ → Option ℕ → String → ℕ → M (Unit {0})
  insert_view post_id user_id ip_address id w =
      let t = w.db.engagements in
      if not (is_inet ip_address)
      then (err database_error, w)
      else if has_seen t.post_views post_id user_id
      then (ok tt, w)
      else if any (has_id post_id) w.db.posts && user_exists w.db user_id
      then (
        ok tt,
        record w {
          db =
              with_counts post_id (add_views 1)
                (record t {
                  post_views =
                      t.post_views
                      ++ record { view_id = id; post_id = post_id; user_id = user_id } ∷ [];
                })
                w.db;
        },
      )
      else (err database_error, w)

  -- `AddView`, outside a transaction.
  unfoldable pub add_view : ℕ → Option ℕ → String → M (Unit {0})
  add_view post_id user_id ip_address = do
    reach
    id ← next_serial
    insert_view post_id user_id ip_address id
