-- ===== src/Feeds/Steps.antt =====
-- One page of a keyset feed.
use gaggle.Prelude.{
  ℕ, ◌+◌, ◌<◌, ◌≡◌, refl, sym, ◌∙◌, ap, Bool, true, false, ◌&&◌, List, [], ◌∷◌, ◌++◌, Option, none,
  some, arith, ◌==◌, select, All, map, length, take, drop,
}
use mathlib.Core.List.{append_assoc}
use mathlib.Core.Path.{subst}
use gaggle.AppErrors.{ok}
use gaggle.Database.{Post, Db, World}
use gaggle.Posts.{get_post}
use gaggle.Pages.{
  CursorText, no_cursor, encoded, newest_first, newest_first-is_descending, select-before,
  All-newest, All-select, create_timestamp_cursor,
}
use gaggle.Feeds.Store.{PostFeed, is_behind, build_feed_from_post_ids, keyset_feed, in_full}
use gaggle.Feeds.Rows.{
  feed_rows, IsPostTable, reach_quiet, IsRead, IsShown, All-map, all_read, load_lem, Full,
  take-take, map-take, length-map, last-append, map-append_one, All-take, take_all, take-drop,
  All-last,
}

-- The page at a cursor that leaves the rows `ys`.
module _ (fits : Db → Post → Bool) (w : World) (limit : ℕ) where
  -- The rows that a page selects from.
  abbrev pub leaves : Option (ℕ × ℕ) → List Post
  leaves key =
      select (λ p. fits w.db p && is_behind key p) (newest_first Post.created_at Post.id w.db.posts)

  pub build_lem :
      (ids : List ℕ) (ps : List Post)
      → w.faults ≡ []
      → ids ≡ map Post.id ps
      → All (IsShown w.db) ps
      → (length ps == limit) ≡ false
      → build_feed_from_post_ids in_full ids limit w
        ≡ (ok (record { items = ps; has_more = false; next_cursor = no_cursor }), w)
  unfolding build_feed_from_post_ids
  build_lem ids ps works e h short = rw (e, load_lem w ps works h, length-map ps, short) refl

  pub build_full :
      (ids : List ℕ) (ps front : List Post) (a : Post)
      → w.faults ≡ []
      → ids ≡ map Post.id ps
      → ps ≡ front ++ a ∷ []
      → All (IsShown w.db) ps
      → IsRead w.db a
      → (length ps == limit) ≡ true
      → build_feed_from_post_ids in_full ids limit w ≡ (
        ok (record {
          items = ps;
          has_more = true;
          next_cursor = encoded (create_timestamp_cursor a.id a.created_at);
        }),
        w,
      )
  unfolding build_feed_from_post_ids get_post
  build_full ids ps front a works e r h (found, _) full =
      rw
        (
          e,
          load_lem w ps works h,
          length-map ps,
          full,
          ap (map Post.id) r,
          map-append_one front a,
          last-append (map Post.id front) a.id,
          reach_quiet w works,
          found,
        )
        refl

  abbrev pub at : Option (ℕ × ℕ) → CursorText
  at none = no_cursor
  at (some (t, i)) = encoded (create_timestamp_cursor i t)

  pub keyset_lem :
      (key : Option (ℕ × ℕ))
      → w.faults ≡ []
      → keyset_feed fits limit (at key) w
        ≡ build_feed_from_post_ids in_full (map Post.id (take limit (leaves key))) limit w
  unfolding keyset_feed
  keyset_lem none works =
      rw
        (
          reach_quiet w works,
          map-take limit (take (limit + 1) (leaves none)),
          take-take limit (limit + 1) (leaves none) (omega arith),
        )
        refl
  keyset_lem (some (t, i)) works =
      rw
        (
          reach_quiet w works,
          map-take limit (take (limit + 1) (leaves (some (t, i)))),
          take-take limit (limit + 1) (leaves (some (t, i))) (omega arith),
        )
        refl

  pub shown :
      (key : Option (ℕ × ℕ))
      → IsPostTable w.db
      → ((p : Post) → fits w.db p ≡ true → p.soft_deleted ≡ false)
      → All (IsShown w.db) (leaves key)
  shown key table live =
      All-map (λ p. IsRead w.db p × ((fits w.db p && is_behind key p) ≡ true)) (IsShown w.db)
        (λ p h. (h.0, live p (ground (arith, h.1)))) (leaves key)
        (All-select (IsRead w.db) (λ p. fits w.db p && is_behind key p)
          (newest_first Post.created_at Post.id w.db.posts)
          (All-newest Post.created_at Post.id (IsRead w.db) w.db.posts (all_read w.db table)))

  pub short_page :
      (key : Option (ℕ × ℕ))
      → w.faults ≡ []
      → IsPostTable w.db
      → ((p : Post) → fits w.db p ≡ true → p.soft_deleted ≡ false)
      → length (leaves key) < limit
      → keyset_feed fits limit (at key) w
        ≡ (ok (record { items = leaves key; has_more = false; next_cursor = no_cursor }), w)
  short_page key works table live short =
      keyset_lem key works
      ∙ build_lem (map Post.id (take limit (leaves key))) (leaves key) works
          (ap (map Post.id) (take_all limit (leaves key) (omega arith))) (shown key table live)
          (ground arith)

  unfoldable pub page : (key : Option (ℕ × ℕ)) → Full limit (leaves key) → PostFeed
  page key full = record {
    items = take limit (leaves key);
    has_more = true;
    next_cursor = at (some (full.end.created_at, full.end.id));
  }

  pub full_page_lem :
      (key : Option (ℕ × ℕ)) (full : Full limit (leaves key))
      → w.faults ≡ []
      → IsPostTable w.db
      → ((p : Post) → fits w.db p ≡ true → p.soft_deleted ≡ false)
      → keyset_feed fits limit (at key) w ≡ (ok (page key full), w)
  unfolding page
  full_page_lem key full works table live =
      let all = All-take (IsShown w.db) limit (leaves key) (shown key table live) in
      keyset_lem key works
      ∙ build_full (map Post.id (take limit (leaves key))) (take limit (leaves key)) full.front
          full.end works refl full.rows all
          (All-last (IsShown w.db) full.front full.end (subst (All (IsShown w.db)) full.rows all)).0
          (ground (arith, full.size))

  pub behind_end :
      (key : Option (ℕ × ℕ)) (xs : List Post) (full : Full limit (leaves key))
      → IsPostTable w.db
      → feed_rows fits w.db ≡ xs ++ leaves key
      → (leaves (some (full.end.created_at, full.end.id)) ≡ drop limit (leaves key))
        × (feed_rows fits w.db ≡ (xs ++ take limit (leaves key)) ++ drop limit (leaves key))
  behind_end key xs full table split = (
    select-before Post.created_at Post.id (fits w.db)
        (newest_first Post.created_at Post.id w.db.posts) (xs ++ full.front) full.end
        (drop limit (leaves key))
        (newest_first-is_descending Post.created_at Post.id w.db.posts table.keyed)
        (split
          ∙ ap (λ zs. xs ++ zs) full.whole
          ∙ sym (append_assoc xs full.front (full.end ∷ drop limit (leaves key)))),
    split
        ∙ ap (λ zs. xs ++ zs) (sym (take-drop limit (leaves key)))
        ∙ sym (append_assoc xs (take limit (leaves key)) (drop limit (leaves key))),
  )
