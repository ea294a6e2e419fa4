-- ===== src/Feeds/Replies.antt =====
-- The replies to a post, and a deleted one among them.
use gaggle.Prelude.{
  ℕ, ◌+◌, ◌≡◌, refl, inl, inr, Option, Bool, true, false, not, ◌&&◌, List, [], ◌∷◌, none, some,
  arith, ◌==◌, Bool-cases, find, select, any, All, map, length, take, if◌then◌else◌,
}
use gaggle.AppErrors.{ok, err, Result, AppError, not_found_error, other_cause}
use gaggle.Database.{User, Post, Db, World}
use gaggle.Posts.{get_full_post_by_id}
use gaggle.Pages.{is_keyed, CursorText, no_cursor, newest_first, All-newest, All-select}
use gaggle.Feeds.Store.{
  PostFeed, in_full, last, cursor_after, is_reply_to, load_full, get_descendants,
  build_feed_from_post_ids,
}
use gaggle.Feeds.Rows.{
  IsPostTable, IsRead, reach_quiet, find_shown, all_read, map-take, take-take, All-map, All-take,
}

-- The direct replies to a post, newest first, deleted ones included.
abbrev pub replies_to : Db → ℕ → List Post
replies_to d post_id = select (is_reply_to post_id) (newest_first Post.created_at Post.id d.posts)

abbrev pub missing_post : AppError
missing_post = not_found_error "post with id %d not found" other_cause

find_absent :
    (k : ℕ) (users : List User) (xs : List Post)
    → any (λ q. q.id == k) xs ≡ false
    → find (λ q. q.id == k && not q.soft_deleted && any (λ u. u.id == q.author_id) users) xs ≡ none
find_absent k users [] h = refl
find_absent k users (x ∷ xs) h = ground (arith, find_absent k users xs)

find_deleted :
    (k : ℕ) (users : List User) (xs : List Post) (a : Post)
    → is_keyed Post.created_at Post.id xs ≡ true
    → find (λ q. q.id == k) xs ≡ some a
    → a.soft_deleted ≡ true
    → find (λ q. q.id == k && not q.soft_deleted && any (λ u. u.id == q.author_id) users) xs ≡ none
find_deleted k users [] a keyed h deleted = refl
find_deleted k users (x ∷ xs) a keyed h deleted = elim (Bool-cases (x.id == k)) [
  | inl here ↦ let same : x.id ≡ k = ground (arith, here) in ground (arith, find_absent k users xs)
  | inr later ↦ ground (arith, find_deleted k users xs a)
]

-- The hydration of rows of the table stops at a deleted one.
load_mixed :
    (w : World) (ps : List Post)
    → w.faults ≡ []
    → IsPostTable w.db
    → All (IsRead w.db) ps
    → load_full (map Post.id ps) w
      ≡ ((if any Post.soft_deleted ps then err missing_post else ok ps), w)
unfolding load_full get_full_post_by_id
load_mixed w [] works table h = refl
load_mixed w (p ∷ ps) works table ((found, author), h) = elim (Bool-cases p.soft_deleted) [
  | inl deleted ↦
      rw
        (
          reach_quiet w works,
          find_deleted p.id w.db.users w.db.posts p table.keyed found deleted,
          deleted,
        )
        refl
  | inr live ↦ elim (Bool-cases (any Post.soft_deleted ps)) [
    | inl bad ↦
        rw
          (
            reach_quiet w works,
            find_shown p.id w.db.users w.db.posts p found (ground arith),
            load_mixed w ps works table h,
            live,
            bad,
          )
          refl
    | inr good ↦
        rw
          (
            reach_quiet w works,
            find_shown p.id w.db.users w.db.posts p found (ground arith),
            load_mixed w ps works table h,
            live,
            good,
          )
          refl
  ]
]

cursor_after_ok :
    (format : ℕ → ℕ) (o : Option ℕ) (w : World)
    → (t : CursorText) × ((cursor_after format o w).0 ≡ ok t)
cursor_after_ok format none w = (no_cursor, refl)
cursor_after_ok format (some id) w = (_, refl)

-- A page with a deleted row is an error, and any other page is a feed with those rows.
abbrev pub Outcome : List Post → Result PostFeed → Type 0
Outcome page r =
    if any Post.soft_deleted page
    then r ≡ err missing_post
    else (feed : PostFeed) × (r ≡ ok feed) × (feed.items ≡ page)

build-Outcome :
    (w : World) (ps : List Post) (limit : ℕ)
    → w.faults ≡ []
    → IsPostTable w.db
    → All (IsRead w.db) ps
    → Outcome ps (build_feed_from_post_ids in_full (map Post.id ps) limit w).0
unfolding build_feed_from_post_ids
build-Outcome w ps limit works table h = elim (Bool-cases (any Post.soft_deleted ps)) [
  | inl bad ↦ rw (load_mixed w ps works table h, bad) refl
  | inr good ↦
      let ids = map Post.id ps in
      let o = if length ids == limit then last ids else none in
      let (t, e) = cursor_after_ok in_full o w in
      rw (load_mixed w ps works table h, good, e)
        (record { items = ps; has_more = length ids == limit; next_cursor = t }, refl, refl)
]

select-and_true : (p : Post → Bool) (xs : List Post) → select (λ q. p q && true) xs ≡ select p xs
select-and_true p [] = refl
select-and_true p (x ∷ xs) = ground (arith, select-and_true p xs)

first_page :
    (w : World) (post_id limit : ℕ)
    → w.faults ≡ []
    → get_descendants post_id limit no_cursor w
      ≡ build_feed_from_post_ids in_full
          (map Post.id (take limit (replies_to w.db post_id)))
          limit
          w
unfolding get_descendants
first_page w post_id limit works =
    rw
      (
        reach_quiet w works,
        select-and_true (is_reply_to post_id) (newest_first Post.created_at Post.id w.db.posts),
        map-take limit (take (limit + 1) (replies_to w.db post_id)),
        take-take limit (limit + 1) (replies_to w.db post_id) (omega arith),
      )
      refl

-- The first page of the replies, where the database works and the tables are keyed: if one of its
-- rows is deleted, the whole request fails with NOT_FOUND; otherwise it has exactly the newest
-- replies, up to the limit.
pub get_descendants-Outcome :
    (w : World) (post_id limit : ℕ)
    → w.faults ≡ []
    → IsPostTable w.db
    → Outcome (take limit (replies_to w.db post_id)) (get_descendants post_id limit no_cursor w).0
get_descendants-Outcome w post_id limit works table = rw (first_page w post_id limit works) (
    build-Outcome w (take limit (replies_to w.db post_id)) limit works table (
      All-take (IsRead w.db) limit (replies_to w.db post_id) (
        All-map (λ p. IsRead w.db p × (is_reply_to post_id p ≡ true)) (IsRead w.db) (λ p h. h.0)
          (replies_to w.db post_id)
          (All-select (IsRead w.db) (is_reply_to post_id)
            (newest_first Post.created_at Post.id w.db.posts)
            (All-newest Post.created_at Post.id (IsRead w.db) w.db.posts (all_read w.db table))))))
