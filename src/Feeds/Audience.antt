-- ===== src/Feeds/Audience.antt =====
-- Who is served what: every feed goes through the filter.
use gaggle.Prelude.{
  ℕ, ◌≡◌, refl, ◌∙◌, inl, inr, Bool, true, String, List, [], ◌∷◌, Option, none, some, arith, select,
  map, ℤ, Option-cases,
}
use mathlib.Core.Path.{subst}
use gaggle.AppErrors.{AppError, Result, ok, err}
use gaggle.Database.{
  Post, Db, World, M, reach, pure, query, ◌>>=◌, continue, Ends, Ends-bind, Ends-db, db-reach,
}
use gaggle.Accounts.{get_by_id, row_or}
use gaggle.Lists.{get_list}
use gaggle.Posts.{get_post, get_full_post_by_id, filter_visible_posts}
use gaggle.Posts.Filter.{can_see, present, filter_visible_posts-Ends}
use gaggle.Posts.Audience.{every}
use gaggle.Pages.{CursorText, no_cursor, undecodable, encoded}
use gaggle.Feeds.Store.{
  PostFeed, load_full, build_feed_from_post_ids, keyset_feed, get_home_feed, get_list_feed,
  get_user_feed, run_user_feed_query, get_descendants, get_quotes_feed, get_liked_posts_feed,
  get_bookmarked_posts_feed, cursor_after, finish_timed, require_cursor,
}
use gaggle.Feeds.Service.{
  hydrate, with_items, serve_feed, home_feed, user_feed, user_mode_feed, list_feed_posts,
  descendants, bookmarked_posts_feed, liked_posts_feed, quotes_feed,
}

-- A call that only reads.
abbrev pub Reads : {A : Type 0} → M A → Type 0
Reads m = (w : World) → (m w).1.db ≡ w.db

continue-Reads :
    {A B : Type 0} (r : Result A) (f : A → M B) (v : World) (d : Db)
    → v.db ≡ d
    → ((a : A) → Reads (f a))
    → (continue r f v).1.db ≡ d
continue-Reads (ok a) f v d e k = k a v ∙ e
continue-Reads (err x) f v d e k = e

pub bind-Reads :
    {A B : Type 0} (m : M A) (f : A → M B) → Reads m → ((a : A) → Reads (f a)) → Reads (m >>= f)
bind-Reads m f h k w = continue-Reads (m w).0 f (m w).1 w.db (h w) k

pub query-Reads : {A : Type 0} (f : Db → A) → Reads (query f)
unfolding reach
query-Reads f w = ground arith

row_or-Reads : {A : Type 0} (o : Option A) (e : AppError) → Reads (row_or o e)
row_or-Reads none e w = refl
row_or-Reads (some a) e w = refl

full-Reads : (id : ℕ) → Reads (get_full_post_by_id id)
unfolding get_full_post_by_id
full-Reads id = bind-Reads (query _) _ (query-Reads _) λ o. row_or-Reads o _

post-Reads : (id : ℕ) → Reads (get_post id)
unfolding get_post
post-Reads id = bind-Reads (query _) _ (query-Reads _) λ o. row_or-Reads o _

pub load-Reads : (ids : List ℕ) → Reads (load_full ids)
unfolding load_full
load-Reads [] = λ w. refl
load-Reads (id ∷ ids) =
    bind-Reads (get_full_post_by_id id) _ (full-Reads id)
      λ p. bind-Reads (load_full ids) _ (load-Reads ids) λ ps w. refl

after-Reads : (format : ℕ → ℕ) (o : Option ℕ) → Reads (cursor_after format o)
after-Reads format none w = refl
after-Reads format (some id) w = post-Reads id w

build-Reads :
    (format : ℕ → ℕ) (ids : List ℕ) (limit : ℕ) → Reads (build_feed_from_post_ids format ids limit)
unfolding build_feed_from_post_ids
build-Reads format ids limit =
    bind-Reads (load_full ids) _ (load-Reads ids)
      λ ps. bind-Reads (cursor_after format _) _ (after-Reads format _) λ t w. refl

cursor-Reads : (c : CursorText) → Reads (require_cursor c)
cursor-Reads no_cursor w = refl
cursor-Reads undecodable w = refl
cursor-Reads (encoded c) w = elim (Option-cases c.timestamp) [
  | inl none_there ↦ rw none_there refl
  | inr (t, there) ↦ rw there refl
]

keyset-Reads :
    (fits : Db → Post → Bool) (limit : ℕ) (c : CursorText) → Reads (keyset_feed fits limit c)
unfolding keyset_feed
keyset-Reads fits limit c =
    bind-Reads (require_cursor c) _ (cursor-Reads c)
      λ key. bind-Reads (query _) _ (query-Reads _) λ rows. build-Reads _ _ limit

descendants-Reads : (post_id limit : ℕ) (c : CursorText) → Reads (get_descendants post_id limit c)
unfolding get_descendants
descendants-Reads post_id limit c =
    bind-Reads (require_cursor c) _ (cursor-Reads c)
      λ key. bind-Reads (query _) _ (query-Reads _) λ rows. build-Reads _ _ limit

quotes-Reads : (post_id limit : ℕ) (c : CursorText) → Reads (get_quotes_feed post_id limit c)
unfolding get_quotes_feed
quotes-Reads post_id limit c =
    bind-Reads (require_cursor c) _ (cursor-Reads c)
      λ key. bind-Reads (query _) _ (query-Reads _) λ rows. build-Reads _ _ limit

timed-Reads : (limit : ℕ) (rows : List (ℕ × ℕ)) → Reads (finish_timed limit rows)
timed-Reads limit rows = bind-Reads (load_full _) _ (load-Reads _) λ ps w. refl

liked-Reads : (user_id limit : ℕ) (c : CursorText) → Reads (get_liked_posts_feed user_id limit c)
unfolding get_liked_posts_feed
liked-Reads user_id limit c =
    bind-Reads (require_cursor c) _ (cursor-Reads c)
      λ key. bind-Reads (query _) _ (query-Reads _) λ rows. timed-Reads limit _

bookmarked-Reads :
    (user_id : ℕ) (ids : List ℕ) (rest : Bool) (limit : ℕ) (c : CursorText)
    → Reads (get_bookmarked_posts_feed user_id ids rest limit c)
unfolding get_bookmarked_posts_feed
bookmarked-Reads user_id ids rest limit c =
    bind-Reads (require_cursor c) _ (cursor-Reads c)
      λ key. bind-Reads (query _) _ (query-Reads _) λ rows. timed-Reads limit _

-- A feed of posts that the viewer may see, and no nil dereference.
abbrev pub Visible : Db → ℕ → Option PostFeed → Type 0
Visible d viewer none = ⊥
Visible d viewer (some feed) = every (can_see d viewer) feed.items ≡ true

every_selected : (p : Post → Bool) (xs : List Post) → every p (select p xs) ≡ true
every_selected p [] = refl
every_selected p (x ∷ xs) = ground (arith, every_selected p xs)

-- A call that ends with a visible feed, or an error, and leaves the tables as they were.
abbrev pub Serves : ℕ → M (Option PostFeed) → Type 0
Serves viewer m = (w : World) → Ends w (λ r d. Visible w.db viewer r × (d ≡ w.db)) (m w)

continue-Serves :
    {A : Type 0} (viewer : ℕ) (r : Result A) (f : A → M (Option PostFeed)) (w v : World)
    → v.db ≡ w.db
    → ((a : A) → Serves viewer (f a))
    → Ends w (λ o d. Visible w.db viewer o × (d ≡ w.db)) (continue r f v)
continue-Serves viewer (ok a) f w v e k =
    Ends-db _ w v (f a v) e
      (subst (λ x. Ends v (λ o d. Visible x viewer o × (d ≡ x)) (f a v)) e (k a v))
continue-Serves viewer (err x) f w v e k = e

pub bind-Serves :
    {A : Type 0} (viewer : ℕ) (m : M A) (f : A → M (Option PostFeed))
    → Reads m
    → ((a : A) → Serves viewer (f a))
    → Serves viewer (m >>= f)
bind-Serves viewer m f h k w = continue-Serves viewer (m w).0 f w (m w).1 (h w) k

hydrate-Reads : (posts : List Post) → Reads (hydrate posts)
hydrate-Reads [] w = refl
hydrate-Reads (p ∷ ps) w = db-reach w

filtered-Serves :
    (viewer : ℕ) (feed : PostFeed)
    → Serves viewer (do
      visible ← filter_visible_posts (map some feed.items) viewer
      pure (with_items feed visible))
filtered-Serves viewer feed w =
    Ends-bind _ _ w (filter_visible_posts (map some feed.items) viewer w)
      (λ visible. pure (with_items feed visible))
      (filter_visible_posts-Ends w (map some feed.items) viewer)
      (λ r v h.
        (rw h.0 (every_selected (can_see w.db viewer) (present (map some feed.items))), h.1))

pub serve_feed-Serves : (viewer : ℕ) (feed : PostFeed) → Serves viewer (serve_feed viewer feed)
unfolding serve_feed
serve_feed-Serves viewer feed =
    bind-Serves viewer (hydrate feed.items) _ (hydrate-Reads feed.items)
      λ _. filtered-Serves viewer feed

user-Reads : (id : ℕ) → Reads (get_by_id id)
unfolding get_by_id
user-Reads id = bind-Reads (query _) _ (query-Reads _) λ o. row_or-Reads o _

list-Reads : (id : ℕ) → Reads (get_list id)
unfolding get_list
list-Reads id = bind-Reads (query _) _ (query-Reads _) λ o. row_or-Reads o _

-- The requests for feeds.
pub data FeedRequest : Type 0 where
  home : ℤ → FeedRequest
  user_posts : ℕ → Bool → ℤ → FeedRequest
  user_mode : ℕ → String → ℤ → FeedRequest
  list_posts : ℕ → ℤ → FeedRequest
  replies : ℕ → ℤ → FeedRequest
  bookmarked : List ℕ → Bool → ℕ → FeedRequest
  liked quotes : ℕ → ℕ → FeedRequest

module _ (default_limit max_limit : ℕ) where
  -- The reader of each request, for a viewer and a cursor.
  abbrev pub serve : FeedRequest → ℕ → CursorText → M (Option PostFeed)
  serve (home limit) viewer c = home_feed default_limit max_limit viewer limit c
  serve (user_posts user_id include_replies limit) viewer c =
      user_feed default_limit max_limit user_id viewer include_replies limit c
  serve (user_mode user_id mode limit) viewer c =
      user_mode_feed default_limit max_limit user_id viewer mode limit c
  serve (list_posts list_id limit) viewer c = list_feed_posts viewer list_id limit c
  serve (replies post_id limit) viewer c =
      descendants default_limit max_limit post_id viewer limit c
  serve (bookmarked categories rest limit) viewer c =
      bookmarked_posts_feed viewer viewer categories rest limit c
  serve (liked user_id limit) viewer c = liked_posts_feed user_id viewer limit c
  serve (quotes post_id limit) viewer c = quotes_feed post_id viewer limit c

  -- Whatever feed a viewer asks for, with any limit and any cursor, and wherever the database fails:
  -- no table changes, and a success is a feed, never a nil dereference, in which every post is one
  -- that the viewer may see.
  pub serve-Visible :
      (request : FeedRequest) (viewer : ℕ) (c : CursorText) (w : World)
      → Ends w (λ r d. Visible w.db viewer r × (d ≡ w.db)) (serve request viewer c w)
  unfolding home_feed user_feed user_mode_feed list_feed_posts descendants bookmarked_posts_feed
      liked_posts_feed quotes_feed get_home_feed get_user_feed get_list_feed run_user_feed_query
  serve-Visible (home limit) viewer c =
      bind-Serves viewer (get_by_id viewer) _ (user-Reads viewer) λ _.
        bind-Serves viewer (get_home_feed _ _ c) _ (keyset-Reads _ _ c) (serve_feed-Serves viewer)
  serve-Visible (user_posts user_id include_replies limit) viewer c =
      bind-Serves viewer (get_by_id user_id) _ (user-Reads user_id) λ _.
        bind-Serves viewer (get_user_feed _ _ _ c) _ (keyset-Reads _ _ c) (serve_feed-Serves viewer)
  serve-Visible (user_mode user_id mode limit) viewer c =
      bind-Serves viewer (get_by_id user_id) _ (user-Reads user_id) λ _.
        bind-Serves viewer (run_user_feed_query user_id mode _ c) _ (keyset-Reads _ _ c)
          (serve_feed-Serves viewer)
  serve-Visible (list_posts list_id limit) viewer c =
      bind-Serves viewer (get_list list_id) _ (list-Reads list_id) λ _.
        bind-Serves viewer (get_list_feed _ _ c) _ (keyset-Reads _ _ c) (serve_feed-Serves viewer)
  serve-Visible (replies post_id limit) viewer c =
      bind-Serves viewer (get_post post_id) _ (post-Reads post_id) λ _.
        bind-Serves viewer (get_descendants _ _ c) _ (descendants-Reads _ _ c)
          (serve_feed-Serves viewer)
  serve-Visible (bookmarked categories rest limit) viewer c =
      bind-Serves viewer (get_bookmarked_posts_feed _ _ _ _ c) _ (bookmarked-Reads _ _ _ _ c)
        (serve_feed-Serves viewer)
  serve-Visible (liked user_id limit) viewer c =
      bind-Serves viewer (get_liked_posts_feed _ _ c) _ (liked-Reads _ _ c)
        (serve_feed-Serves viewer)
  serve-Visible (quotes post_id limit) viewer c =
      bind-Serves viewer (get_post post_id) _ (post-Reads post_id) λ _.
        bind-Serves viewer (get_quotes_feed _ _ c) _ (quotes-Reads _ _ c) (serve_feed-Serves viewer)
