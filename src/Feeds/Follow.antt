-- ===== src/Feeds/Follow.antt =====
-- A reader who follows the cursors of a feed.
use gaggle.Prelude.{
  String, ℕ, zero, suc, ◌≤◌, ◌<◌, ◌≡◌, refl, sym, ◌∙◌, ap, inl, inr, Bool, true, false, List, [],
  ◌++◌, Option, none, some, arith, Bool-cases, ltb, length, take, if◌then◌else◌,
}
use gaggle.AppErrors.{ok}
use gaggle.Database.{Post, Db, World, M, pure, ◌>>=◌}
use gaggle.Pages.{CursorText, no_cursor, newest_first}
use gaggle.Feeds.Store.{
  get_home_feed, get_list_feed, get_user_feed, run_user_feed_query, is_home, is_listed, is_authored,
  is_mode_post, PostFeed, keyset_feed,
}
use gaggle.Feeds.Rows.{feed_rows, IsPostTable, whole_page, take-drop, length-drop, select-true}
use gaggle.Feeds.Steps.{leaves, at, short_page, page, full_page_lem, behind_end}

-- Asks for a page and the pages behind it, until a page says that it is the last; none where the
-- given number of requests does not do.
unfoldable pub follow : ℕ → (CursorText → M PostFeed) → CursorText → M (Option (List Post))
follow zero get c = pure none
follow (suc n) get c = do
  feed ← get c
  if feed.has_more
      then (do
        rest ← follow n get feed.next_cursor
        pure (elim rest [ none ↦ none | some posts ↦ some (feed.items ++ posts) ]))
      else pure (some feed.items)

module _ (fits : Db → Post → Bool) (w : World) (limit : ℕ) where
  follow_lem :
      (n : ℕ) (key : Option (ℕ × ℕ)) (xs : List Post)
      → w.faults ≡ []
      → IsPostTable w.db
      → ((p : Post) → fits w.db p ≡ true → p.soft_deleted ≡ false)
      → 1 ≤ limit
      → length (leaves fits w limit key) < n
      → feed_rows fits w.db ≡ xs ++ leaves fits w limit key
      → follow n (keyset_feed fits limit) (at fits w limit key) w
        ≡ (ok (some (leaves fits w limit key)), w)
  unfolding follow page
  follow_lem zero key xs works table live one enough split = absurd (omega arith)
  follow_lem (suc n) key xs works table live one enough split =
      elim (Bool-cases (ltb (length (leaves fits w limit key)) limit)) [
        | inl short ↦ rw (short_page fits w limit key works table live (ground arith)) refl
        | inr long ↦
            let there : limit ≤ length (leaves fits w limit key) = ground arith in
            let full = whole_page limit (leaves fits w limit key) one there in
            let (next, split') = behind_end fits w limit key xs full table split in
            rw
              (
                full_page_lem fits w limit key full works table live,
                follow_lem n (some (full.end.created_at, full.end.id))
                    (xs ++ take limit (leaves fits w limit key)) works table live one
                    (rw next (omega (arith, length-drop limit (leaves fits w limit key))))
                    (split'
                      ∙ ap (λ zs. (xs ++ take limit (leaves fits w limit key)) ++ zs) (sym next)),
                next,
                take-drop limit (leaves fits w limit key),
              )
              refl
      ]

-- The feeds that share the shape, and the posts that each shows.
pub data FeedKind : Type 0 where
  home list_feed : ℕ → FeedKind
  user_posts : ℕ → Bool → FeedKind
  user_mode : ℕ → String → FeedKind

abbrev pub get_feed : FeedKind → ℕ → CursorText → M PostFeed
get_feed (home user_id) = get_home_feed user_id
get_feed (list_feed list_id) = get_list_feed list_id
get_feed (user_posts user_id include_replies) = get_user_feed user_id include_replies
get_feed (user_mode user_id mode) = run_user_feed_query user_id mode

abbrev pub belongs : FeedKind → Db → Post → Bool
belongs (home user_id) = is_home user_id
belongs (list_feed list_id) = is_listed list_id
belongs (user_posts user_id include_replies) = is_authored user_id include_replies
belongs (user_mode user_id mode) = is_mode_post user_id mode

follow-keyset :
    (fits : Db → Post → Bool) (w : World) (limit requests : ℕ)
    → w.faults ≡ []
    → IsPostTable w.db
    → ((p : Post) → fits w.db p ≡ true → p.soft_deleted ≡ false)
    → 1 ≤ limit
    → length (feed_rows fits w.db) < requests
    → follow requests (keyset_feed fits limit) no_cursor w ≡ (ok (some (feed_rows fits w.db)), w)
follow-keyset fits w limit requests works table live one enough =
    let all : leaves fits w limit none ≡ feed_rows fits w.db =
      select-true (fits w.db) (newest_first Post.created_at Post.id w.db.posts) in
    follow_lem fits w limit requests none [] works table live one (rw all enough) (sym all)
    ∙ ap (λ ps. (ok (some ps), w)) all

-- Where the database works and the tables are keyed, a reader who starts at the first page of the
-- home feed, a list's feed or a user's feeds, and follows the cursors, comes to an end, within one
-- request more than the feed has posts, whatever the page size; and the pages together are exactly
-- the posts of the feed, newest first: each once, none skipped, none repeated.
pub follow-Complete :
    (kind : FeedKind) (w : World) (limit requests : ℕ)
    → w.faults ≡ []
    → IsPostTable w.db
    → 1 ≤ limit
    → length (feed_rows (belongs kind) w.db) < requests
    → follow requests (get_feed kind limit) no_cursor w
      ≡ (ok (some (feed_rows (belongs kind) w.db)), w)
unfolding get_home_feed get_list_feed get_user_feed run_user_feed_query
follow-Complete (home user_id) w limit requests works table one enough =
    follow-keyset (is_home user_id) w limit requests works table (λ p h. ground (arith, h)) one
      enough
follow-Complete (list_feed list_id) w limit requests works table one enough =
    follow-keyset (is_listed list_id) w limit requests works table (λ p h. ground (arith, h)) one
      enough
follow-Complete (user_posts user_id include_replies) w limit requests works table one enough =
    follow-keyset (is_authored user_id include_replies) w limit requests works table
      (λ p h. ground (arith, h)) one enough
follow-Complete (user_mode user_id mode) w limit requests works table one enough =
    follow-keyset (is_mode_post user_id mode) w limit requests works table
      (λ p h. ground (arith, h)) one enough
