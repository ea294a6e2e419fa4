-- ===== src/Publishing/Deletion.antt =====
-- Deleting a post with the replies below it.
use gaggle.Prelude.{
  ℕ, zero, suc, ◌+◌, ◌<◌, ◌≡◌, refl, sym, ◌≢◌, ◌⊎◌, inl, inr, Option-cases, Bool, true, false, not,
  ◌&&◌, ◌||◌, List, [], ◌∷◌, Option, none, some, arith, ◌==◌, ltb, Bool-cases, find, select, any,
  update,
}
use mathlib.Core.Path.{subst}
use gaggle.AppErrors.{Result, ok, err}
use gaggle.Database.{
  Post, Db, World, reach, transaction, Ends, Ends-map, Succeeds, raise_if-Ends, transaction-From,
}
use gaggle.Posts.{can_view_post}
use gaggle.Posts.Filter.{live_post, can_view_post-Ends}
use gaggle.Posts.Audience.{every}
use gaggle.Publishing.Store.{has_id, is_id, is_descendant, marked, delete_cascade}
use gaggle.Publishing.Service.{delete_post}

-- A post of the table, and the replies to its descendants.
pub data Descends (posts : List Post) (root : ℕ) : ℕ → Type 0 where
  itself : any (has_id root) posts ≡ true → Descends posts root root
  reply :
      (parent id : ℕ)
      → Descends posts root parent
      → any (λ p. p.id == id && is_id parent p.parent_id) posts ≡ true
      → Descends posts root id

-- A reply is younger than its parent.
abbrev pub is_younger : Post → Bool
is_younger p = elim p.parent_id [ none ↦ true | some parent ↦ ltb parent p.id ]

any_parent :
    (id : ℕ) (f : ℕ → Bool) (xs : List Post)
    → any (λ p. p.id == id && elim p.parent_id [ none ↦ false | some q ↦ f q ]) xs ≡ true
    → (q : ℕ) × (f q ≡ true) × (any (λ p. p.id == id && is_id q p.parent_id) xs ≡ true)
any_parent id f [] h = ground arith
any_parent id f (x ∷ xs) h = elim (Option-cases x.parent_id) [
  | inl top ↦
      let (q, e, there) = any_parent id f xs (ground (arith, top)) in (q, e, ground (arith, there))
  | inr (q, child) ↦ elim (Bool-cases (x.id == id && f q)) [
    | inl here ↦ (q, ground arith, ground (arith, child))
    | inr later ↦
        let (q', e, there) = any_parent id f xs (ground (arith, child)) in
        (q', e, ground (arith, there))
  ]
]

younger_lem :
    (parent id : ℕ) (xs : List Post)
    → every is_younger xs ≡ true
    → any (λ p. p.id == id && is_id parent p.parent_id) xs ≡ true
    → parent < id
younger_lem parent id [] h k = ground arith
younger_lem parent id (x ∷ xs) h k = ground (arith, younger_lem parent id xs)

any_root :
    (f : Post → Bool) (root : ℕ) (xs : List Post)
    → any (has_id root) xs ≡ true
    → any (λ p. p.id == root && (p.id == root || f p)) xs ≡ true
any_root f root [] h = ground arith
any_root f root (x ∷ xs) h = ground (arith, any_root f root xs)

any_reply :
    (f : ℕ → Bool) (root parent id : ℕ) (xs : List Post)
    → f parent ≡ true
    → any (λ p. p.id == id && is_id parent p.parent_id) xs ≡ true
    → any (λ p. p.id == id && (p.id == root || elim p.parent_id [ none ↦ false | some q ↦ f q ])) xs
      ≡ true
any_reply f root parent id [] e h = ground arith
any_reply f root parent id (x ∷ xs) e h = ground (arith, any_reply f root parent id xs)

-- Above the id of the post, more fuel finds no more.
is_descendant-Descends :
    (n : ℕ) (posts : List Post) (root id : ℕ)
    → every is_younger posts ≡ true
    → id < n
    → Descends posts root id
    → is_descendant n posts root id ≡ true
unfolding is_descendant
is_descendant-Descends zero posts root id young h d = absurd (omega arith)
is_descendant-Descends (suc n) posts root id young h (itself there) = any_root _ root posts there
is_descendant-Descends (suc n) posts root id young h (reply parent _ d there) =
    any_reply (is_descendant n posts root) root parent id posts
      (is_descendant-Descends n posts root parent young
        (omega (arith, younger_lem parent id posts young there)) d)
      there

split_descendant :
    (id root : ℕ) (f : ℕ → Bool) (xs : List Post)
    → any (λ p. p.id == id && (p.id == root || elim p.parent_id [ none ↦ false | some q ↦ f q ])) xs
      ≡ true
    → ((id ≡ root) × (any (has_id root) xs ≡ true))
      ⊎ (any (λ p. p.id == id && elim p.parent_id [ none ↦ false | some q ↦ f q ]) xs ≡ true)
split_descendant id root f [] h = ground arith
split_descendant id root f (x ∷ xs) h = elim (Bool-cases (x.id == id)) [
  | inl here ↦ elim (Bool-cases (x.id == root)) [
    | inl top ↦ inl (ground arith)
    | inr below ↦ elim (Bool-cases (elim x.parent_id [ none ↦ false | some q ↦ f q ])) [
      | inl found ↦ inr (ground arith)
      | inr other ↦ ground (arith, split_descendant id root f xs)
    ]
  ]
  | inr there ↦ ground (arith, split_descendant id root f xs)
]

-- What the recursion finds is a descendant.
Descends-is_descendant :
    (n : ℕ) (posts : List Post) (root id : ℕ)
    → is_descendant n posts root id ≡ true
    → Descends posts root id
unfolding is_descendant
Descends-is_descendant zero posts root id h = ground arith
Descends-is_descendant (suc n) posts root id h =
    elim (split_descendant id root (is_descendant n posts root) posts h) [
      | inl (same, there) ↦ subst (Descends posts root) (sym same) (itself there)
      | inr below ↦
          let (q, e, there) = any_parent id (is_descendant n posts root) posts below in
          reply q id (Descends-is_descendant n posts root q e) there
    ]

-- The rows of an id after the deletion: none is live below the root, and the others are as before.
none_live :
    (posts : List Post) (root id : ℕ) (xs : List Post)
    → is_descendant (id + 1) posts root id ≡ true
    → any
        (λ p. p.id == id && not p.soft_deleted)
        (update (marked root posts) (λ p. record p { soft_deleted = true }) xs)
      ≡ false
none_live posts root id [] h = refl
none_live posts root id (x ∷ xs) h = elim (Bool-cases (x.id == id)) [
  | inl here ↦
      let same : x.id ≡ id = ground arith in
      let found : is_descendant (x.id + 1) posts root x.id ≡ true = rw same h in
      ground (arith, found, none_live posts root id xs)
  | inr other ↦ ground (arith, none_live posts root id xs)
]

others_kept :
    (posts : List Post) (root id : ℕ) (xs : List Post)
    → is_descendant (id + 1) posts root id ≡ false
    → select (has_id id) (update (marked root posts) (λ p. record p { soft_deleted = true }) xs)
      ≡ select (has_id id) xs
others_kept posts root id [] h = refl
others_kept posts root id (x ∷ xs) h = elim (Bool-cases (x.id == id)) [
  | inl here ↦
      let same : x.id ≡ id = ground arith in
      let missing : is_descendant (x.id + 1) posts root x.id ≡ false = rw same h in
      ground (arith, missing, others_kept posts root id xs)
  | inr other ↦ ground (arith, others_kept posts root id xs)
]

-- The post and every reply below it have no live row, and nothing else has changed.
pub record Deletes (before : Db) (root : ℕ) (d : Db) : Type 0 where
  pub gone :
      (id : ℕ)
      → Descends before.posts root id
      → any (λ p. p.id == id && not p.soft_deleted) d.posts ≡ false
  pub kept :
      (id : ℕ)
      → ¬ Descends before.posts root id
      → select (has_id id) d.posts ≡ select (has_id id) before.posts
  pub rest : record d { posts = [] } ≡ record before { posts = [] }

deleted_db : Db → ℕ → Db
deleted_db d root = record d {
  posts = update (marked root d.posts) (λ p. record p { soft_deleted = true }) d.posts;
}

deleted_db-Deletes :
    (before : Db) (root : ℕ)
    → every is_younger before.posts ≡ true
    → Deletes before root (deleted_db before root)
unfolding deleted_db
deleted_db-Deletes before root young = record {
  gone = λ id d.
      none_live before.posts root id before.posts
        (is_descendant-Descends (id + 1) before.posts root id young (omega arith) d);
  kept = λ id n. elim (Bool-cases (is_descendant (id + 1) before.posts root id)) [
    | inl found ↦ absurd (n (Descends-is_descendant (id + 1) before.posts root id found))
    | inr missing ↦ others_kept before.posts root id before.posts missing
  ];
  rest = refl;
}

delete_cascade_lem :
    (v : World) (root : ℕ) → Succeeds (λ _ d. d ≡ deleted_db v.db root) (delete_cascade root v)
unfolding delete_cascade deleted_db reach
delete_cascade_lem v root = ground arith

-- Deleting a post, wherever the database fails, where replies are younger than their parents: an
-- error, of the check on the author too, changes no table; after a success, which only the author
-- has, no post among the post and the replies below it, at any depth, is live, and every other row
-- is as it was.
pub delete_post-Deletes :
    (w : World) (post : Post) (actor : ℕ)
    → every is_younger w.db.posts ≡ true
    → Ends w (λ _ d. (post.author_id ≡ actor) × Deletes w.db post.id d) (delete_post post actor w)
unfolding delete_post
delete_post-Deletes w post actor young =
    raise_if-Ends _ w (not (post.author_id == actor)) _ (transaction (delete_cascade post.id))
      λ own.
        Ends-map w (transaction (delete_cascade post.id) w)
          (λ _ d e. (ground arith, rw e (deleted_db-Deletes w.db post.id young)))
          (transaction-From (λ b _ d. d ≡ deleted_db b post.id) w (delete_cascade post.id)
            (λ v. delete_cascade_lem v post.id))

no_live_post :
    (d : Db) (id : ℕ)
    → any (λ p. p.id == id && not p.soft_deleted) d.posts ≡ false
    → live_post d id ≡ none
no_live_post d id h = missing d.posts h
  where
    missing :
        (xs : List Post)
        → any (λ p. p.id == id && not p.soft_deleted) xs ≡ false
        → find (λ p. p.id == id && not p.soft_deleted && any (λ u. u.id == p.author_id) d.users) xs
          ≡ none
    missing [] k = refl
    missing (x ∷ xs) k = ground (arith, missing xs)

never_ok :
    {A : Type 0} (w : World) (r : Result A × World) → Ends w (λ _ _. ⊥) r → (a : A) → r.0 ≢ ok a
never_ok w (ok b, v) h a e = absurd h
never_ok w (err x, v) h a e = cc

-- After a post was deleted, and while the tables stay as that left them, nobody, not even the
-- author, is told that the post or a reply below it can be viewed.
pub can_view_post-delete_post :
    (w : World) (post : Post) (actor : ℕ)
    → every is_younger w.db.posts ≡ true
    → Ends w
        (λ _ d.
          (v : World) (id viewer : ℕ) (answer : Option Bool)
          → v.db ≡ d
          → Descends w.db.posts post.id id
          → (can_view_post id viewer v).0 ≢ ok answer)
        (delete_post post actor w)
can_view_post-delete_post w post actor young =
    Ends-map w (delete_post post actor w)
      (λ _ d h v id viewer answer same below.
        never_ok v (can_view_post id viewer v)
          (rw (no_live_post v.db id (rw same (h.1.gone id below))) at
            (can_view_post-Ends v id viewer))
          answer)
      (delete_post-Deletes w post actor young)
