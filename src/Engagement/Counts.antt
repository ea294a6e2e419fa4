-- ===== src/Engagement/Counts.antt =====
-- The counts of the posts are those of the tables.
use gaggle.Prelude.{
  ap, ◌∙◌, ℕ, ◌+◌, ◌≡◌, refl, sym, inl, inr, Bool, true, false, List, [], ◌∷◌, ◌++◌, arith, ◌==◌,
  Bool-cases, count, update, delete, count-append_one,
}
use gaggle.Database.{Post, Engagement, PostBookmark, PostView, Db}
use gaggle.Posts.Audience.{every}
use gaggle.Publishing.{has_id}
use gaggle.Engagement.Store.{
  with_counts, add_likes, drop_likes, add_reposts, drop_reposts, add_bookmarks, drop_bookmarks,
  add_views, is_of, is_mark,
}

-- A column of the posts against a count for each id.
abbrev pub agrees : (Post → ℕ) → (ℕ → ℕ) → List Post → Bool
agrees column n posts = every (λ p. column p == n p.id) posts

-- The four columns.
pub record IsCounted (d : Db) : Type 0 where
  pub likes :
      agrees Post.likes_count (λ id. count (λ l. l.post_id == id) d.engagements.post_likes) d.posts
      ≡ true
  pub reposts :
      agrees Post.reposts_count
        (λ id. count (λ l. l.post_id == id) d.engagements.post_reposts)
        d.posts
      ≡ true
  pub bookmarks :
      agrees Post.bookmarks_count
        (λ id. count (λ b. b.post_id == id) d.engagements.post_bookmarks)
        d.posts
      ≡ true
  pub views :
      agrees Post.views_count (λ id. count (λ v. v.post_id == id) d.engagements.post_views) d.posts
      ≡ true

-- A change of the posts of one id that moves the column as the count moves, or leaves both.
agrees-update :
    (column : Post → ℕ) (m n : ℕ → ℕ) (id : ℕ) (f : Post → Post) (posts : List Post)
    → ((p : Post) → (f p).id ≡ p.id)
    → ((p : Post) → p.id ≡ id → column p ≡ m id → column (f p) ≡ n id)
    → ((k : ℕ) → (k == id) ≡ false → m k ≡ n k)
    → agrees column m posts ≡ true
    → agrees column n (update (has_id id) f posts) ≡ true
agrees-update column m n id f [] same moved kept h = refl
agrees-update column m n id f (p ∷ posts) same moved kept h = elim (Bool-cases (p.id == id)) [
  | inl here ↦
      let e : p.id ≡ id = ground (arith, here) in
      let before : column p ≡ m id = ground (arith, ap m e) in
      let after : column (f p) ≡ n (f p).id = moved p e before ∙ ap n (sym (same p ∙ e)) in
      ground (arith, here, after, agrees-update column m n id f posts same moved kept)
  | inr other ↦ ground (arith, kept p.id other, agrees-update column m n id f posts same moved kept)
]

-- The update leaves a column, and the count, alone.
agrees-same :
    (column : Post → ℕ) (n : ℕ → ℕ) (id : ℕ) (f : Post → Post) (posts : List Post)
    → ((p : Post) → (f p).id ≡ p.id)
    → ((p : Post) → column (f p) ≡ column p)
    → agrees column n posts ≡ true
    → agrees column n (update (has_id id) f posts) ≡ true
agrees-same column n id f posts same kept h =
    agrees-update column n n id f posts same (λ p _ e. kept p ∙ e) (λ k _. refl) h

count-delete :
    {A : Type 0} (p q : A → Bool) (xs : List A)
    → ((a : A) → q a ≡ true → p a ≡ true)
    → count p (delete q xs) + count q xs ≡ count p xs
count-delete p q [] h = refl
count-delete p q (x ∷ xs) h = ground (arith, h x, count-delete p q xs h)

count-delete_other :
    {A : Type 0} (p q : A → Bool) (xs : List A)
    → ((a : A) → q a ≡ true → p a ≡ false)
    → count p (delete q xs) ≡ count p xs
count-delete_other p q [] h = refl
count-delete_other p q (x ∷ xs) h = ground (arith, h x, count-delete_other p q xs h)

count-update :
    {A : Type 0} (p q : A → Bool) (f : A → A) (xs : List A)
    → ((a : A) → p (f a) ≡ p a)
    → count p (update q f xs) ≡ count p xs
count-update p q f [] h = refl
count-update p q f (x ∷ xs) h = ground (arith, h x, count-update p q f xs h)

pub add_like-IsCounted :
    (d : Db) (post_id : ℕ) (row : Engagement)
    → row.post_id ≡ post_id
    → IsCounted d
    → IsCounted (
        with_counts post_id
          (add_likes 1)
          (record d.engagements { post_likes = d.engagements.post_likes ++ row ∷ [] })
          d)
add_like-IsCounted d post_id row e h = record {
  likes =
      agrees-update _ _ _ post_id (add_likes 1) d.posts (λ p. refl)
        (λ p here same.
          ground (
            arith,
            here,
            e,
            count-append_one (λ l. l.post_id == p.id) d.engagements.post_likes row,
          ))
        (λ k other.
          ground (arith, e, count-append_one (λ l. l.post_id == k) d.engagements.post_likes row))
        h.likes;
  reposts = agrees-same _ _ post_id (add_likes 1) d.posts (λ p. refl) (λ p. refl) h.reposts;
  bookmarks = agrees-same _ _ post_id (add_likes 1) d.posts (λ p. refl) (λ p. refl) h.bookmarks;
  views = agrees-same _ _ post_id (add_likes 1) d.posts (λ p. refl) (λ p. refl) h.views;
}

pub drop_like-IsCounted :
    (d : Db) (post_id user_id : ℕ)
    → IsCounted d
    → IsCounted (
        with_counts post_id
          (drop_likes (count (is_of post_id user_id) d.engagements.post_likes))
          (record d.engagements {
            post_likes = delete (is_of post_id user_id) d.engagements.post_likes;
          })
          d)
drop_like-IsCounted d post_id user_id h = record {
  likes =
      agrees-update _ _ _ post_id
        (drop_likes (count (is_of post_id user_id) d.engagements.post_likes)) d.posts (λ p. refl)
        (λ p here same. ground (
          arith,
          here,
          same,
          count-delete (λ l. l.post_id == post_id) (is_of post_id user_id) d.engagements.post_likes
              (λ a m. ground arith),
        ))
        (λ k other. sym (
          count-delete_other (λ l. l.post_id == k) (is_of post_id user_id) d.engagements.post_likes
            (λ a m. ground arith)))
        h.likes;
  reposts =
      agrees-same _ _ post_id (drop_likes (count (is_of post_id user_id) d.engagements.post_likes))
        d.posts (λ p. refl) (λ p. refl) h.reposts;
  bookmarks =
      agrees-same _ _ post_id (drop_likes (count (is_of post_id user_id) d.engagements.post_likes))
        d.posts (λ p. refl) (λ p. refl) h.bookmarks;
  views =
      agrees-same _ _ post_id (drop_likes (count (is_of post_id user_id) d.engagements.post_likes))
        d.posts (λ p. refl) (λ p. refl) h.views;
}

pub add_repost-IsCounted :
    (d : Db) (post_id : ℕ) (row : Engagement)
    → row.post_id ≡ post_id
    → IsCounted d
    → IsCounted (
        with_counts post_id
          (add_reposts 1)
          (record d.engagements { post_reposts = d.engagements.post_reposts ++ row ∷ [] })
          d)
add_repost-IsCounted d post_id row e h = record {
  reposts =
      agrees-update _ _ _ post_id (add_reposts 1) d.posts (λ p. refl)
        (λ p here same. ground (
          arith,
          here,
          e,
          count-append_one (λ l. l.post_id == p.id) d.engagements.post_reposts row,
        ))
        (λ k other.
          ground (arith, e, count-append_one (λ l. l.post_id == k) d.engagements.post_reposts row))
        h.reposts;
  likes = agrees-same _ _ post_id (add_reposts 1) d.posts (λ p. refl) (λ p. refl) h.likes;
  bookmarks = agrees-same _ _ post_id (add_reposts 1) d.posts (λ p. refl) (λ p. refl) h.bookmarks;
  views = agrees-same _ _ post_id (add_reposts 1) d.posts (λ p. refl) (λ p. refl) h.views;
}

pub drop_repost-IsCounted :
    (d : Db) (post_id user_id : ℕ)
    → IsCounted d
    → IsCounted (
        with_counts post_id
          (drop_reposts (count (is_of post_id user_id) d.engagements.post_reposts))
          (record d.engagements {
            post_reposts = delete (is_of post_id user_id) d.engagements.post_reposts;
          })
          d)
drop_repost-IsCounted d post_id user_id h = record {
  reposts =
      agrees-update _ _ _ post_id
        (drop_reposts (count (is_of post_id user_id) d.engagements.post_reposts)) d.posts
        (λ p. refl)
        (λ p here same. ground (
          arith,
          here,
          same,
          count-delete (λ l. l.post_id == post_id) (is_of post_id user_id)
              d.engagements.post_reposts (λ a m. ground arith),
        ))
        (λ k other. sym (
          count-delete_other (λ l. l.post_id == k) (is_of post_id user_id)
            d.engagements.post_reposts (λ a m. ground arith)))
        h.reposts;
  likes =
      agrees-same _ _ post_id
        (drop_reposts (count (is_of post_id user_id) d.engagements.post_reposts)) d.posts
        (λ p. refl) (λ p. refl) h.likes;
  bookmarks =
      agrees-same _ _ post_id
        (drop_reposts (count (is_of post_id user_id) d.engagements.post_reposts)) d.posts
        (λ p. refl) (λ p. refl) h.bookmarks;
  views =
      agrees-same _ _ post_id
        (drop_reposts (count (is_of post_id user_id) d.engagements.post_reposts)) d.posts
        (λ p. refl) (λ p. refl) h.views;
}

pub add_bookmark-IsCounted :
    (d : Db) (post_id : ℕ) (row : PostBookmark)
    → row.post_id ≡ post_id
    → IsCounted d
    → IsCounted (
        with_counts post_id
          (add_bookmarks 1)
          (record d.engagements { post_bookmarks = d.engagements.post_bookmarks ++ row ∷ [] })
          d)
add_bookmark-IsCounted d post_id row e h = record {
  bookmarks =
      agrees-update _ _ _ post_id (add_bookmarks 1) d.posts (λ p. refl)
        (λ p here same. ground (
          arith,
          here,
          e,
          count-append_one (λ l. l.post_id == p.id) d.engagements.post_bookmarks row,
        ))
        (λ k other.
          ground
            (arith, e, count-append_one (λ l. l.post_id == k) d.engagements.post_bookmarks row))
        h.bookmarks;
  likes = agrees-same _ _ post_id (add_bookmarks 1) d.posts (λ p. refl) (λ p. refl) h.likes;
  reposts = agrees-same _ _ post_id (add_bookmarks 1) d.posts (λ p. refl) (λ p. refl) h.reposts;
  views = agrees-same _ _ post_id (add_bookmarks 1) d.posts (λ p. refl) (λ p. refl) h.views;
}

pub drop_bookmark-IsCounted :
    (d : Db) (post_id user_id : ℕ)
    → IsCounted d
    → IsCounted (
        with_counts post_id
          (drop_bookmarks (count (is_mark post_id user_id) d.engagements.post_bookmarks))
          (record d.engagements {
            post_bookmarks = delete (is_mark post_id user_id) d.engagements.post_bookmarks;
          })
          d)
drop_bookmark-IsCounted d post_id user_id h = record {
  bookmarks =
      agrees-update _ _ _ post_id
        (drop_bookmarks (count (is_mark post_id user_id) d.engagements.post_bookmarks)) d.posts
        (λ p. refl)
        (λ p here same. ground (
          arith,
          here,
          same,
          count-delete (λ l. l.post_id == post_id) (is_mark post_id user_id)
              d.engagements.post_bookmarks (λ a m. ground arith),
        ))
        (λ k other. sym (
          count-delete_other (λ l. l.post_id == k) (is_mark post_id user_id)
            d.engagements.post_bookmarks (λ a m. ground arith)))
        h.bookmarks;
  likes =
      agrees-same _ _ post_id
        (drop_bookmarks (count (is_mark post_id user_id) d.engagements.post_bookmarks)) d.posts
        (λ p. refl) (λ p. refl) h.likes;
  reposts =
      agrees-same _ _ post_id
        (drop_bookmarks (count (is_mark post_id user_id) d.engagements.post_bookmarks)) d.posts
        (λ p. refl) (λ p. refl) h.reposts;
  views =
      agrees-same _ _ post_id
        (drop_bookmarks (count (is_mark post_id user_id) d.engagements.post_bookmarks)) d.posts
        (λ p. refl) (λ p. refl) h.views;
}

pub add_view-IsCounted :
    (d : Db) (post_id : ℕ) (row : PostView)
    → row.post_id ≡ post_id
    → IsCounted d
    → IsCounted (
        with_counts post_id
          (add_views 1)
          (record d.engagements { post_views = d.engagements.post_views ++ row ∷ [] })
          d)
add_view-IsCounted d post_id row e h = record {
  views =
      agrees-update _ _ _ post_id (add_views 1) d.posts (λ p. refl)
        (λ p here same.
          ground (
            arith,
            here,
            e,
            count-append_one (λ l. l.post_id == p.id) d.engagements.post_views row,
          ))
        (λ k other.
          ground (arith, e, count-append_one (λ l. l.post_id == k) d.engagements.post_views row))
        h.views;
  likes = agrees-same _ _ post_id (add_views 1) d.posts (λ p. refl) (λ p. refl) h.likes;
  reposts = agrees-same _ _ post_id (add_views 1) d.posts (λ p. refl) (λ p. refl) h.reposts;
  bookmarks = agrees-same _ _ post_id (add_views 1) d.posts (λ p. refl) (λ p. refl) h.bookmarks;
}

agrees_ext :
    (column : Post → ℕ) (m n : ℕ → ℕ) (posts : List Post)
    → ((k : ℕ) → m k ≡ n k)
    → agrees column m posts ≡ true
    → agrees column n posts ≡ true
agrees_ext column m n [] e h = refl
agrees_ext column m n (p ∷ posts) e h = ground (arith, e p.id, agrees_ext column m n posts e)

pub move_bookmark-IsCounted :
    (d : Db) (q : PostBookmark → Bool) (f : PostBookmark → PostBookmark)
    → ((b : PostBookmark) → (f b).post_id ≡ b.post_id)
    → IsCounted d
    → IsCounted (record d {
      engagements = record d.engagements {
        post_bookmarks = update q f d.engagements.post_bookmarks;
      };
    })
move_bookmark-IsCounted d q f kept h = record {
  likes = h.likes;
  reposts = h.reposts;
  bookmarks =
      agrees_ext Post.bookmarks_count _ _ d.posts
        (λ k. sym (
          count-update (λ b. b.post_id == k) q f d.engagements.post_bookmarks
            (λ b. ap (λ i. i == k) (kept b))))
        h.bookmarks;
  views = h.views;
}
