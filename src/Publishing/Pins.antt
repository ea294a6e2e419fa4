-- ===== src/Publishing/Pins.antt =====
-- The pinned post of an author.
use gaggle.Prelude.{
  ℕ, ◌≡◌, refl, ◌∙◌, ap, inl, inr, true, false, not, ◌&&◌, List, [], ◌∷◌, some, arith, ◌==◌,
  if◌then◌else◌, Bool-cases, find, any, update, map,
}
use gaggle.AppErrors.{ok}
use gaggle.Database.{
  Post, Db, World, reach, transaction, Ends, Ends-map, Succeeds, raise_if-Ends, transaction-From,
}
use gaggle.Posts.{get_post}
use gaggle.Publishing.Store.{is_pinned_by, is_pinnable, pin_row, get_pinned}
use gaggle.Publishing.Service.{pin_post}

-- The post of the author that is the pinned one from now on, and the posts of others as they were.
abbrev pub repin : ℕ → ℕ → Post → Post
repin post_id author_id p = record p {
  is_pinned =
      if p.author_id == author_id then p.id == post_id && not p.soft_deleted else p.is_pinned;
}

any_unpinned :
    (post_id author_id : ℕ) (ps : List Post)
    → any
        (is_pinnable post_id author_id)
        (update (is_pinned_by author_id) (λ p. record p { is_pinned = false }) ps)
      ≡ any (is_pinnable post_id author_id) ps
any_unpinned post_id author_id [] = refl
any_unpinned post_id author_id (p ∷ ps) = ground (arith, any_unpinned post_id author_id ps)

repinned :
    (post_id author_id : ℕ) (ps : List Post)
    → update
        (is_pinnable post_id author_id)
        (λ p. record p { is_pinned = true })
        (update (is_pinned_by author_id) (λ p. record p { is_pinned = false }) ps)
      ≡ map (repin post_id author_id) ps
repinned post_id author_id [] = refl
repinned post_id author_id (p ∷ ps) = ground (arith, repinned post_id author_id ps)

-- The author's post is there and not deleted, and it is the author's pinned post, the only one.
abbrev pub Pins : Db → ℕ → ℕ → Db → Type 0
Pins before post_id author_id d =
    (any (is_pinnable post_id author_id) before.posts ≡ true)
    × (d ≡ record before { posts = map (repin post_id author_id) before.posts })

pin_row-Pins :
    (v : World) (post_id author_id : ℕ)
    → Succeeds (λ _. Pins v.db post_id author_id) (pin_row post_id author_id v)
unfolding pin_row reach
pin_row-Pins v post_id author_id =
    ground (arith, any_unpinned post_id author_id v.db.posts, repinned post_id author_id v.db.posts)

-- Pinning, wherever the database fails: an error, of the check on the author too, changes no table.
-- After a success the post is one of the actor's that is not deleted, it is pinned, every other post
-- of the actor is not, and nothing else has changed.
pub pin_post-Pins :
    (w : World) (post : Post) (actor : ℕ)
    → Ends w (λ _ d. (post.author_id ≡ actor) × Pins w.db post.id actor d) (pin_post post actor w)
unfolding pin_post
pin_post-Pins w post actor =
    raise_if-Ends _ w (not (post.author_id == actor)) _ (transaction (pin_row post.id actor)) λ own.
      Ends-map w (transaction (pin_row post.id actor) w) (λ _ d h. (ground arith, h))
        (transaction-From (λ b _. Pins b post.id actor) w (pin_row post.id actor)
          (λ v. pin_row-Pins v post.id actor))

find_pinned :
    (post_id author_id : ℕ) (ps : List Post)
    → any (is_pinnable post_id author_id) ps ≡ true
    → (p : Post) × (find
          (λ q. is_pinned_by author_id q && not q.soft_deleted)
          (map (repin post_id author_id) ps)
        ≡ some p)
      × (p.id ≡ post_id)
find_pinned post_id author_id [] h = ground arith
find_pinned post_id author_id (p ∷ ps) h = elim (Bool-cases (is_pinnable post_id author_id p)) [
  | inl this ↦ (repin post_id author_id p, ground arith, ground arith)
  | inr other ↦
      let (q, found, id) = find_pinned post_id author_id ps (ground arith) in (q, ground arith, id)
]

found_again :
    (post_id author_id : ℕ) (ps : List Post)
    → any (is_pinnable post_id author_id) ps ≡ true
    → (p : Post) × (find (λ q. q.id == post_id) (map (repin post_id author_id) ps) ≡ some p)
      × (p.id ≡ post_id)
found_again post_id author_id [] h = ground arith
found_again post_id author_id (p ∷ ps) h = elim (Bool-cases (p.id == post_id)) [
  | inl this ↦ (repin post_id author_id p, ground arith, ground arith)
  | inr other ↦
      let (q, found, id) = found_again post_id author_id ps (ground arith) in (q, ground arith, id)
]

read_pinned :
    (v : World) (post_id author_id : ℕ) (ps : List Post)
    → v.faults ≡ []
    → any (is_pinnable post_id author_id) ps ≡ true
    → v.db.posts ≡ map (repin post_id author_id) ps
    → (p : Post) × ((get_pinned author_id v).0 ≡ ok p) × (p.id ≡ post_id)
unfolding get_pinned get_post reach
read_pinned v post_id author_id ps works there e =
    let (q, found, id) = find_pinned post_id author_id ps there in
    let (p, again, id') = found_again post_id author_id ps there in
    (p, rw (works, e, found, id, again) refl, id')

-- Wherever the database fails while a post is pinned: after a success, whenever the tables are read
-- while the database works, the pinned post of the actor is that post.
pub get_pinned-pin_post :
    (w : World) (post : Post) (actor : ℕ)
    → Ends w
        (λ _ d.
          (v : World)
          → v.faults ≡ []
          → v.db ≡ d
          → (p : Post) × ((get_pinned actor v).0 ≡ ok p) × (p.id ≡ post.id))
        (pin_post post actor w)
get_pinned-pin_post w post actor =
    Ends-map w (pin_post post actor w)
      (λ _ d (own, (there, e)) v works same.
        read_pinned v post.id actor w.db.posts works there (ap Db.posts (same ∙ e)))
      (pin_post-Pins w post actor)
