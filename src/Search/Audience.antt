-- ===== src/Search/Audience.antt =====
-- Who finds what: what is found goes through the filter, too.
use gaggle.Prelude.{
  ℕ, zero, suc, ◌≤◌, ◌≡◌, refl, sym, inl, inr, Bool, true, false, String, List, [], ◌∷◌, Option,
  none, some, arith, ltb, length, take, Bool-cases, Option-cases, map, ℤ, ◌&&◌, str_eq,
}
use mathlib.Core.Path.{subst}
use gaggle.AppErrors.{AppError, Result, ok, err, no_cause, bad_request_error}
use gaggle.Posts.{trim_space}
use gaggle.Publishing.{lower_text}
use gaggle.Database.{Post, Db, World, M, query, raise_if, ◌>>=◌, ◌>>◌, continue, Ends}
use gaggle.Pages.{CursorText, no_cursor, undecodable, encoded, validate_and_normalize_limit}
use gaggle.Pages.Bounds.{limits-IsLimit}
use gaggle.Feeds.{PostFeed, last, load_full}
use gaggle.Feeds.Audience.{
  Reads, Serves, Visible, query-Reads, load-Reads, bind-Serves, serve_feed-Serves,
}
use gaggle.Search.Store.{
  PostSearchFilters, search_cursor, page_of, list_discoverable_posts, list_by_hashtag,
  list_mentioned_by, search_posts, matches, trim_hash, is_found_in, is_tagged, is_found_for,
}
use gaggle.Search.Service.{hydrate_feed, is_backward, hashtag_posts, mentioning_posts, found_posts}

cursor-Reads : (c : CursorText) → Reads (search_cursor c)
cursor-Reads no_cursor w = refl
cursor-Reads undecodable w = refl
cursor-Reads (encoded c) w = elim (Option-cases c.timestamp) [
  | inl none_there ↦ rw none_there refl
  | inr (t, there) ↦ rw there refl
]

last_of_cons : {A : Type 0} (x : A) (xs : List A) → (y : A) × (last (x ∷ xs) ≡ some y)
last_of_cons x [] = (x, refl)
last_of_cons x (y ∷ xs) = last_of_cons y xs

-- A page, and no index out of range.
abbrev IsPage : Option PostFeed → Type 0
IsPage none = ⊥
IsPage (some feed) = Unit {0}

page_of-IsPage : (limit : ℕ) (rows : List Post) → 1 ≤ limit → IsPage (page_of limit rows)
page_of-IsPage zero rows one = absurd (omega arith)
page_of-IsPage (suc n) [] one = let e : ltb (suc n) 0 ≡ false = ground arith in rw e tt
page_of-IsPage (suc n) (p ∷ rows) one = elim (Bool-cases (ltb (suc n) (length (p ∷ rows)))) [
  | inl more ↦ let (q, e) = last_of_cons p (take n rows) in rw (more, e) tt
  | inr all ↦ rw all tt
]

serve_page-Serves :
    (viewer : ℕ) (o : Option PostFeed) → IsPage o → Serves viewer (hydrate_feed viewer o)
unfolding hydrate_feed
serve_page-Serves viewer none h = absurd h
serve_page-Serves viewer (some feed) h =
    bind-Serves viewer (load_full (map Post.id feed.items)) _ (load-Reads _)
      λ full. serve_feed-Serves viewer (record feed { items = full })

continue_assoc :
    {A B C : Type 0} (r : Result A) (v : World) (f : A → M B) (g : B → M C)
    → continue (continue r f v).0 g (continue r f v).1 ≡ continue r (λ a. f a >>= g) v
continue_assoc (ok a) v f g = refl
continue_assoc (err e) v f g = refl

-- A bind on a call that is itself a bind.
assoc-Serves :
    {A B : Type 0} (viewer : ℕ) (m : M A) (f : A → M B) (g : B → M (Option PostFeed))
    → Serves viewer (m >>= λ a. f a >>= g)
    → Serves viewer ((m >>= f) >>= g)
assoc-Serves viewer m f g h w =
    subst (Ends w (λ r d. Visible w.db viewer r × (d ≡ w.db)))
      (sym (continue_assoc (m w).0 (m w).1 f g)) (h w)

discover-Serves :
    (fits : Db → Post → Bool) (limit viewer : ℕ) (c : CursorText)
    → 1 ≤ limit
    → Serves viewer (do feed ← list_discoverable_posts fits limit c; hydrate_feed viewer feed)
unfolding list_discoverable_posts
discover-Serves fits limit viewer c one = assoc-Serves viewer (search_cursor c) _ _ (
    bind-Serves viewer (search_cursor c) _ (cursor-Reads c) λ key.
      assoc-Serves viewer (query _) _ _ (
        bind-Serves viewer (query _) _ (query-Reads _)
          λ rows. serve_page-Serves viewer (page_of limit rows) (page_of-IsPage limit rows one)))

raise_if-Serves :
    (viewer : ℕ) (b : Bool) (e : AppError) (m : M (Option PostFeed))
    → Serves viewer m
    → Serves viewer (do raise_if b e; m)
raise_if-Serves viewer true e m h w = refl
raise_if-Serves viewer false e m h w = h w

-- The searches.
pub data SearchRequest : Type 0 where
  by_text : String → PostSearchFilters → ℤ → SearchRequest
  by_hashtag : String → ℤ → SearchRequest
  by_mention : ℤ → SearchRequest

module _ (default_limit max_limit : ℕ) (ilike : String → String → Bool) where
  abbrev pub answer : SearchRequest → ℕ → CursorText → M (Option PostFeed)
  answer (by_text text filters limit) viewer c =
      found_posts default_limit max_limit ilike viewer text filters limit c
  answer (by_hashtag name limit) viewer c =
      hashtag_posts default_limit max_limit viewer name limit c
  answer (by_mention limit) viewer c = mentioning_posts default_limit max_limit viewer limit c

  normal_limit :
      (limit : ℤ)
      → 1 ≤ default_limit
      → default_limit ≤ max_limit
      → 1 ≤ validate_and_normalize_limit limit default_limit max_limit
  normal_limit limit h k = (limits-IsLimit limit "" "" default_limit max_limit h k).0.0

  -- Whatever a viewer searches for, by text with filters, by hashtag or by mention, with any limit
  -- and any cursor, whatever the text matches, and wherever the database fails, where the configured
  -- default limit is at least 1 and at most the maximum: no table changes, and a success is a feed,
  -- never an index out of range, in which every post is one that the viewer may see.
  pub answer-Visible :
      (request : SearchRequest) (viewer : ℕ) (c : CursorText) (w : World)
      → 1 ≤ default_limit
      → default_limit ≤ max_limit
      → Ends w (λ r d. Visible w.db viewer r × (d ≡ w.db)) (answer request viewer c w)
  unfolding hashtag_posts mentioning_posts found_posts list_by_hashtag list_mentioned_by
      search_posts
  answer-Visible (by_text text filters limit) viewer c w h k =
      let n = validate_and_normalize_limit limit default_limit max_limit in
      let run : M (Option PostFeed) = do
        feed ← search_posts ilike (trim_space text) filters n c
        hydrate_feed viewer feed
      in let refused = bad_request_error "until must be after since" no_cause in
        raise_if-Serves viewer (str_eq (trim_space text) "")
          (bad_request_error "search query is required" no_cause)
          (do raise_if (is_backward filters.since filters.until) refused; run)
          (raise_if-Serves viewer (is_backward filters.since filters.until) refused run (
            discover-Serves
              (matches ilike (trim_space text)
                (record filters { hashtag = lower_text (trim_hash (trim_space filters.hashtag)) }))
              n viewer c (normal_limit limit h k)))
          w
  answer-Visible (by_hashtag name limit) viewer c w h k =
      let tag = trim_hash (lower_text (trim_space name)) in
      let n = validate_and_normalize_limit limit default_limit max_limit in
      raise_if-Serves viewer (str_eq tag "") (bad_request_error "hashtag is required" no_cause)
        (do feed ← list_by_hashtag tag n c; hydrate_feed viewer feed)
        (discover-Serves (λ d p. is_found_in p && is_tagged tag d p) n viewer c
          (normal_limit limit h k))
        w
  answer-Visible (by_mention limit) viewer c w h k =
      discover-Serves (is_found_for viewer) _ viewer c (normal_limit limit h k) w
