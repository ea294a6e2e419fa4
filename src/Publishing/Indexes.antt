-- ===== src/Publishing/Indexes.antt =====
-- server/internal/store/hashtag_store.go and mention_store.go, LinkMediaToPost of media_store.go and
-- Create of news_store.go: the rows that hang on a post.
use Prim.Native.String.{count as rune_count}
use gaggle.Prelude.{
  ℕ, Bool, not, ◌&&◌, ◌||◌, String, List, [], ◌∷◌, ◌++◌, Option, none, some, ◌==◌, ltb, str_eq,
  if◌then◌else◌, find, delete, any,
}
use gaggle.AppErrors.{ok, err, other_cause, not_found_error}
use gaggle.Database.{
  User, PostHashtag, PostMention, PostMedia, NewsRow, PostTables, World, M, database_error, reach,
  query, next_serial, pure, ◌>>=◌, ◌>>◌,
}
use gaggle.Accounts.{row_or}
use gaggle.Posts.{in_range}
use gaggle.Publishing.Tags.{extract_hashtags, extract_mentions}
use gaggle.Publishing.Store.{has_id}

abbrev pub tables : World → PostTables
tables w = w.db.post_tables

abbrev pub with_tables : PostTables → World → World
with_tables t w = record w { db = record w.db { post_tables = t } }

-- INSERT INTO hashtags … ON CONFLICT (name) DO UPDATE … RETURNING hashtag_id, which draws a number
-- whether or not the name is there.
unfoldable pub upsert_hashtag : String → M ℕ
upsert_hashtag name = do
  reach
  id ← next_serial
  λ w. elim (find (λ h. str_eq h.name name) (tables w).hashtags) [
    | some h ↦ (ok h.hashtag_id, w)
    | none ↦ (
      ok id,
      with_tables
          (record (tables w) {
            hashtags = (tables w).hashtags ++ record { hashtag_id = id; name = name } ∷ [];
          })
          w,
    )
  ]

abbrev pub links : ℕ → ℕ → PostHashtag → Bool
links post_id hashtag_id l = l.post_id == post_id && l.hashtag_id == hashtag_id

-- INSERT INTO post_hashtags … ON CONFLICT DO NOTHING
unfoldable pub link_hashtag : ℕ → ℕ → M (Unit {0})
link_hashtag post_id hashtag_id = do
  reach
  λ w. if any (links post_id hashtag_id) (tables w).post_hashtags then (ok tt, w) else (
    ok tt,
    with_tables
        (record (tables w) {
          post_hashtags =
              (tables w).post_hashtags
              ++ record { post_id = post_id; hashtag_id = hashtag_id } ∷ [];
        })
        w,
  )

-- The loop over the names.
unfoldable pub sync_names : ℕ → List String → M (Unit {0})
sync_names post_id [] = pure tt
sync_names post_id (name ∷ names) = do
  hashtag_id ← upsert_hashtag name
  link_hashtag post_id hashtag_id
  sync_names post_id names

unfoldable pub clear_hashtags : ℕ → M (Unit {0})
clear_hashtags post_id = do
  reach
  λ w. (
    ok tt,
    with_tables
        (record (tables w) {
          post_hashtags = delete (λ l. l.post_id == post_id) (tables w).post_hashtags;
        })
        w,
  )

-- `SyncPost` of the hashtags
unfoldable pub sync_hashtags : ℕ → String → M (Unit {0})
sync_hashtags post_id content = do
  clear_hashtags post_id
  sync_names post_id (extract_hashtags content)

abbrev pub mentions : ℕ → ℕ → PostMention → Bool
mentions post_id user_id m = m.post_id == post_id && m.user_id == user_id

-- INSERT INTO post_mentions … ON CONFLICT DO NOTHING
unfoldable pub link_mention : ℕ → ℕ → M (Unit {0})
link_mention post_id user_id = do
  reach
  λ w. if any (mentions post_id user_id) (tables w).post_mentions then (ok tt, w) else (
    ok tt,
    with_tables
        (record (tables w) {
          post_mentions =
              (tables w).post_mentions ++ record { post_id = post_id; user_id = user_id } ∷ [];
        })
        w,
  )

abbrev pub link_found : ℕ → Option User → M (Unit {0})
link_found post_id none = pure tt
link_found post_id (some u) = link_mention post_id u.id

unfoldable pub clear_mentions : ℕ → M (Unit {0})
clear_mentions post_id = do
  reach
  λ w. (
    ok tt,
    with_tables
        (record (tables w) {
          post_mentions = delete (λ m. m.post_id == post_id) (tables w).post_mentions;
        })
        w,
  )

-- The database's LOWER, which is not part of the repository.
module _ (lower : String → String) where
  abbrev pub is_named : String → User → Bool
  is_named name u = str_eq (lower u.username) (lower name) && not u.soft_deleted

  unfoldable pub sync_users : ℕ → List String → M (Unit {0})
  sync_users post_id [] = pure tt
  sync_users post_id (name ∷ names) = do
    row ← query (λ d. find (is_named name) d.users)
    link_found post_id row
    sync_users post_id names

  -- `SyncPost` of the mentions
  unfoldable pub sync_mentions : ℕ → String → M (Unit {0})
  sync_mentions post_id content = do
    clear_mentions post_id
    sync_users post_id (extract_mentions content)

-- `LinkMediaToPost`: the media's row, and the key, the CHECK and the width of post_media.
unfoldable pub link_media_to_post : PostMedia → M (Unit {0})
link_media_to_post pm = do
  row ← query (λ d. find (str_eq pm.media_uuid) d.post_tables.media)
  row_or row (not_found_error "media with id %s not found" other_cause)
  reach
  λ w.
      if any (λ m. m.post_id == pm.post_id && str_eq m.media_uuid pm.media_uuid)
          (tables w).post_media
        || not (in_range 1 pm.position 4)
        || ltb 200 (rune_count pm.alt_text)
        || not (any (has_id pm.post_id) w.db.posts)
      then (err database_error, w)
      else (
        ok tt,
        with_tables (record (tables w) { post_media = (tables w).post_media ++ pm ∷ [] }) w,
      )

-- `Create` of the news
unfoldable pub create_news : NewsRow → M (Unit {0})
create_news news = do
  reach
  λ w.
      if any (λ n. n.post_id == news.post_id) (tables w).post_news
        || not (any (has_id news.post_id) w.db.posts)
      then (err database_error, w)
      else (
        ok tt,
        with_tables (record (tables w) { post_news = (tables w).post_news ++ news ∷ [] }) w,
      )
