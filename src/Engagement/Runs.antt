-- ===== src/Engagement/Runs.antt =====
-- What every engagement keeps.
use gaggle.Prelude.{
  ℕ, ◌≡◌, refl, sym, inl, inr, ◌&&◌, Bool, String, Option, none, some, arith, Bool-cases, any,
}
use mathlib.Core.Path.{subst}
use gaggle.AppErrors.{ok}
use gaggle.Database.{
  Db, World, M, reach, next_serial, transaction, db-reach, ◌>>=◌, ◌>>◌, bind_keeps,
  transaction_keeps,
}
use gaggle.Publishing.{has_id}
use gaggle.Engagement.Store.{
  is_of, is_mark, insert_like, insert_repost, upsert_bookmark, insert_view, like_row, unlike_row,
  repost_row, unrepost_row, bookmark_row, unbookmark_row, add_view, check_category, has_keys,
  has_seen, user_exists, category_exists, new_engagement,
}
use gaggle.Engagement.Service.{like, unlike, repost, unrepost, bookmark, unbookmark}
use gaggle.Engagement.Counts.{
  IsCounted, move_bookmark-IsCounted, add_like-IsCounted, drop_like-IsCounted, add_repost-IsCounted,
  drop_repost-IsCounted, add_bookmark-IsCounted, drop_bookmark-IsCounted, add_view-IsCounted,
}

-- A call that keeps the counts.
abbrev Counts : {A : Type 0} → M A → Type 0
Counts m = (w : World) → IsCounted w.db → IsCounted (m w).1.db

like-Counts : (post_id user_id id : ℕ) → Counts (insert_like post_id user_id id)
like-Counts post_id user_id id w h =
    elim (Bool-cases (any (is_of post_id user_id) w.db.engagements.post_likes)) [
      | inl there ↦ rw there h
      | inr new ↦ elim (Bool-cases (has_keys w.db post_id user_id)) [
        | inl keys ↦
            rw (new, keys)
              (add_like-IsCounted w.db post_id (new_engagement id post_id user_id w.now) refl h)
        | inr missing ↦ rw (new, missing) h
      ]
    ]

repost-Counts : (post_id user_id id : ℕ) → Counts (insert_repost post_id user_id id)
repost-Counts post_id user_id id w h =
    elim (Bool-cases (any (is_of post_id user_id) w.db.engagements.post_reposts)) [
      | inl there ↦ rw there h
      | inr new ↦ elim (Bool-cases (has_keys w.db post_id user_id)) [
        | inl keys ↦
            rw (new, keys)
              (add_repost-IsCounted w.db post_id (new_engagement id post_id user_id w.now) refl h)
        | inr missing ↦ rw (new, missing) h
      ]
    ]

view-Counts :
    (is_inet : String → Bool) (post_id : ℕ) (user_id : Option ℕ) (ip : String) (id : ℕ)
    → Counts (insert_view is_inet post_id user_id ip id)
view-Counts is_inet post_id user_id ip id w h = elim (Bool-cases (is_inet ip)) [
  | inr refused ↦ rw refused h
  | inl address ↦ elim (Bool-cases (has_seen w.db.engagements.post_views post_id user_id)) [
    | inl there ↦ rw (address, there) h
    | inr new ↦ elim (Bool-cases (any (has_id post_id) w.db.posts && user_exists w.db user_id)) [
      | inl keys ↦ rw (address, new, keys) (add_view-IsCounted w.db post_id _ refl h)
      | inr missing ↦ rw (address, new, missing) h
    ]
  ]
]

bookmark-Counts :
    (post_id user_id : ℕ) (category_id : Option ℕ) (id : ℕ)
    → Counts (upsert_bookmark post_id user_id category_id id)
bookmark-Counts post_id user_id category_id id w h =
    elim (Bool-cases (category_exists w.db category_id)) [
      | inl known ↦
          elim (Bool-cases (any (is_mark post_id user_id) w.db.engagements.post_bookmarks)) [
            | inl there ↦
                rw (known, there)
                  (move_bookmark-IsCounted w.db (is_mark post_id user_id) _ (λ b. refl) h)
            | inr new ↦ elim (Bool-cases (has_keys w.db post_id user_id)) [
              | inl keys ↦ rw (known, new, keys) (add_bookmark-IsCounted w.db post_id _ refl h)
              | inr missing ↦ rw (known, new, missing) h
            ]
          ]
      | inr unknown ↦ rw unknown h
    ]

-- The statement, behind the round trip and the draw of a number.
draw-Counts :
    {A : Type 0} (f : ℕ → M A)
    → ((id : ℕ) → Counts (f id))
    → Counts (do reach; id ← next_serial; f id)
draw-Counts f k w h =
    bind_keeps IsCounted reach (λ _. do id ← next_serial; f id) w (at_reach w h)
      λ _ _. k (reach w).1.sequence (next_serial (reach w).1).1 (at_reach w h)
  where
    at_reach : (v : World) → IsCounted v.db → IsCounted (reach v).1.db
    at_reach v g = subst IsCounted (sym (db-reach v)) g

commit-Counts : {A : Type 0} (m : M A) → Counts m → Counts (transaction m)
commit-Counts m k w h =
    transaction_keeps IsCounted m w h (λ v e _ _. k v (subst IsCounted (sym e) h))

after_reach :
    (f : Db → Db)
    → ((d : Db) → IsCounted d → IsCounted (f d))
    → Counts (do reach; λ w. (ok tt, record w { db = f w.db }))
after_reach f k w h =
    bind_keeps IsCounted reach (λ _ v. (ok tt, record v { db = f v.db })) w
      (subst IsCounted (sym (db-reach w)) h)
      λ _ _. k (reach w).1.db (subst IsCounted (sym (db-reach w)) h)

pub check_category_db :
    (user_id : ℕ) (category_id : Option ℕ) (w : World)
    → (check_category user_id category_id w).1.db ≡ w.db
unfolding reach
check_category_db user_id none w = refl
check_category_db user_id (some id) w = ground arith

category-Counts :
    (user_id : ℕ) (category_id : Option ℕ) → Counts (check_category user_id category_id)
category-Counts user_id category_id w h =
    subst IsCounted (sym (check_category_db user_id category_id w)) h

-- The engagements.
pub data EngagementOp : Type 0 where
  op_like op_unlike op_repost op_unrepost op_unbookmark : ℕ → ℕ → EngagementOp
  op_bookmark : ℕ → ℕ → Option ℕ → EngagementOp
  op_view : ℕ → Option ℕ → String → EngagementOp

-- The tables after a call.
abbrev pub engage : (String → Bool) → EngagementOp → World → World
engage is_inet (op_like post_id user_id) w = (like post_id user_id w).1
engage is_inet (op_unlike post_id user_id) w = (unlike post_id user_id w).1
engage is_inet (op_repost post_id user_id) w = (repost post_id user_id w).1
engage is_inet (op_unrepost post_id user_id) w = (unrepost post_id user_id w).1
engage is_inet (op_unbookmark post_id user_id) w = (unbookmark post_id user_id w).1
engage is_inet (op_bookmark post_id user_id category_id) w =
    (bookmark post_id user_id category_id w).1
engage is_inet (op_view post_id user_id ip) w = (add_view is_inet post_id user_id ip w).1

-- Whatever a user does to a post, and wherever the database fails: where every post's counts of
-- likes, reposts, bookmarks and views are the numbers of its rows in the tables, they still are.
pub engage-IsCounted :
    (is_inet : String → Bool) (op : EngagementOp) (w : World)
    → IsCounted w.db
    → IsCounted (engage is_inet op w).db
unfolding like unlike repost unrepost bookmark unbookmark like_row unlike_row repost_row
    unrepost_row bookmark_row unbookmark_row add_view
engage-IsCounted is_inet (op_like post_id user_id) =
    commit-Counts (like_row post_id user_id)
      (draw-Counts (insert_like post_id user_id) (like-Counts post_id user_id))
engage-IsCounted is_inet (op_unlike post_id user_id) =
    commit-Counts (unlike_row post_id user_id)
      (after_reach _ (λ d. drop_like-IsCounted d post_id user_id))
engage-IsCounted is_inet (op_repost post_id user_id) =
    commit-Counts (repost_row post_id user_id)
      (draw-Counts (insert_repost post_id user_id) (repost-Counts post_id user_id))
engage-IsCounted is_inet (op_unrepost post_id user_id) =
    commit-Counts (unrepost_row post_id user_id)
      (after_reach _ (λ d. drop_repost-IsCounted d post_id user_id))
engage-IsCounted is_inet (op_unbookmark post_id user_id) =
    commit-Counts (unbookmark_row post_id user_id)
      (after_reach _ (λ d. drop_bookmark-IsCounted d post_id user_id))
engage-IsCounted is_inet (op_bookmark post_id user_id category_id) =
    commit-Counts (bookmark_row post_id user_id category_id) (λ w h.
      bind_keeps IsCounted (check_category user_id category_id) _ w
        (category-Counts user_id category_id w h)
        λ _ _.
          draw-Counts (upsert_bookmark post_id user_id category_id)
            (bookmark-Counts post_id user_id category_id) (check_category user_id category_id w).1
            (category-Counts user_id category_id w h))
engage-IsCounted is_inet (op_view post_id user_id ip) =
    draw-Counts (insert_view is_inet post_id user_id ip) (view-Counts is_inet post_id user_id ip)
