-- ===== src/Engagement/Owners.antt =====
-- The categories of bookmarks belong to their users.
use gaggle.Prelude.{
  ℕ, ◌≡◌, refl, ◌∙◌, inl, inr, Bool, true, false, not, ◌&&◌, String, List, [], ◌∷◌, ◌++◌, Option,
  none, some, arith, ◌==◌, Bool-cases, Option-cases, any, count, update, delete, any-append_one,
  any-delete_ne,
}
use gaggle.AppErrors.{Result, ok, err}
use gaggle.Database.{
  BookmarkCategory, PostBookmark, Db, World, reach, transaction, next_serial, Ends, Ends-keeps,
  Succeeds, Succeeds-bind, reach-Succeeds, transaction-From, raise_if-Ends,
}
use gaggle.Posts.Audience.{every}
use gaggle.Engagement.Store.{
  is_mark, owns_category, check_category, upsert_bookmark, bookmark_row, unbookmark_row, has_keys,
  category_exists,
}
use gaggle.Engagement.Categories.{
  is_in_category, is_hex_color, insert_category, create_category_row, delete_category_row,
}
use gaggle.Engagement.Service.{
  bookmark, unbookmark, create_bookmark_category, delete_bookmark_category,
}

-- The bookmark has no category, or one that its user owns.
abbrev pub is_filed : List BookmarkCategory → PostBookmark → Bool
is_filed categories b = elim b.category_id [
  | none ↦ true
  | some id ↦ any (owns_category id b.user_id) categories
]

abbrev pub is_owned : Db → Bool
is_owned d = every (is_filed d.engagements.bookmark_categories) d.engagements.post_bookmarks

every-append_one :
    {A : Type 0} (p : A → Bool) (xs : List A) (x : A) → every p (xs ++ x ∷ []) ≡ (every p xs && p x)
every-append_one p [] x = ground arith
every-append_one p (y ∷ xs) x = ground (arith, every-append_one p xs x)

every-delete :
    {A : Type 0} (p q : A → Bool) (xs : List A) → every p xs ≡ true → every p (delete q xs) ≡ true
every-delete p q [] h = refl
every-delete p q (x ∷ xs) h = ground (arith, every-delete p q xs)

every-update :
    {A : Type 0} (p r q : A → Bool) (f : A → A) (xs : List A)
    → ((x : A) → p x ≡ true → q x ≡ true → r (f x) ≡ true)
    → ((x : A) → p x ≡ true → q x ≡ false → r x ≡ true)
    → every p xs ≡ true
    → every r (update q f xs) ≡ true
every-update p r q f [] h k e = refl
every-update p r q f (x ∷ xs) h k e = elim (Bool-cases (q x)) [
  | inl here ↦ ground (arith, here, h x, every-update p r q f xs h k)
  | inr other ↦ ground (arith, other, k x, every-update p r q f xs h k)
]

count_owned :
    (category_id user_id : ℕ) (cs : List BookmarkCategory)
    → (count (owns_category category_id user_id) cs == 0) ≡ false
    → any (owns_category category_id user_id) cs ≡ true
count_owned category_id user_id [] h = ground arith
count_owned category_id user_id (c ∷ cs) h = ground (arith, count_owned category_id user_id cs)

-- What the check on the category lets through.
abbrev owns : Db → ℕ → Option ℕ → Bool
owns d user_id none = true
owns d user_id (some id) = any (owns_category id user_id) d.engagements.bookmark_categories

check_category_lem :
    (user_id : ℕ) (category_id : Option ℕ) (v : World)
    → Succeeds
        (λ _ d. (owns v.db user_id category_id ≡ true) × (d ≡ v.db))
        (check_category user_id category_id v)
unfolding reach
check_category_lem user_id none v = (refl, refl)
check_category_lem user_id (some id) v =
    ground (arith, count_owned id user_id v.db.engagements.bookmark_categories)

filed_lem :
    (d : Db) (user_id : ℕ) (category_id : Option ℕ) (b : PostBookmark)
    → owns d user_id category_id ≡ true
    → b.user_id ≡ user_id
    → b.category_id ≡ category_id
    → is_filed d.engagements.bookmark_categories b ≡ true
filed_lem d user_id none b own u c = rw c refl
filed_lem d user_id (some id) b own u c = rw (c, u) own

upsert-owned :
    (post_id user_id : ℕ) (category_id : Option ℕ) (id : ℕ) (v : World)
    → owns v.db user_id category_id ≡ true
    → is_owned v.db ≡ true
    → is_owned (upsert_bookmark post_id user_id category_id id v).1.db ≡ true
upsert-owned post_id user_id category_id id v own h =
    elim (Bool-cases (category_exists v.db category_id)) [
      | inl known ↦
          elim (Bool-cases (any (is_mark post_id user_id) v.db.engagements.post_bookmarks)) [
            | inl there ↦
                rw (known, there)
                  (every-update (is_filed v.db.engagements.bookmark_categories)
                    (is_filed v.db.engagements.bookmark_categories) (is_mark post_id user_id)
                    (λ b. record b { category_id = category_id; created_at = v.now })
                    v.db.engagements.post_bookmarks
                    (λ b _ m.
                      filed_lem v.db user_id category_id
                        (record b { category_id = category_id; created_at = v.now }) own
                        (ground arith) refl)
                    (λ b e _. e) h)
            | inr new ↦ elim (Bool-cases (has_keys v.db post_id user_id)) [
              | inl keys ↦
                  let b : PostBookmark = record {
                    bookmark_id = id;
                    post_id = post_id;
                    user_id = user_id;
                    category_id = category_id;
                    created_at = v.now;
                  } in
                  rw (known, new, keys)
                    (ground (
                      arith,
                      every-append_one (is_filed v.db.engagements.bookmark_categories)
                          v.db.engagements.post_bookmarks b,
                      filed_lem v.db user_id category_id b own refl refl,
                    ))
              | inr missing ↦ rw (known, new, missing) h
            ]
          ]
      | inr unknown ↦ rw unknown h
    ]

-- What a body promises of the categories.
abbrev Files : {A : Type 0} → Db → A → Db → Type 0
Files before _ d = is_owned before ≡ true → is_owned d ≡ true

of_call : {A : Type 0} (P : Db → Type 0) (r : Result A × World) → P r.1.db → Succeeds (λ _. P) r
of_call P (ok a, v) h = h
of_call P (err e, v) h = tt

bookmark_row-Files :
    (post_id user_id : ℕ) (category_id : Option ℕ) (v : World)
    → Succeeds (Files v.db) (bookmark_row post_id user_id category_id v)
unfolding bookmark_row
bookmark_row-Files post_id user_id category_id v =
    Succeeds-bind (λ _ d. (owns v.db user_id category_id ≡ true) × (d ≡ v.db)) (Files v.db)
      (check_category user_id category_id v) _ (check_category_lem user_id category_id v)
      λ _ x (own, e).
        Succeeds-bind (λ _ d. d ≡ x.db) (Files v.db) (reach x) _ (reach-Succeeds x)
          λ _ y f.
            of_call (λ d. is_owned v.db ≡ true → is_owned d ≡ true)
              (upsert_bookmark post_id user_id category_id y.sequence (next_serial y).1)
              (λ h.
                upsert-owned post_id user_id category_id y.sequence (next_serial y).1
                  (rw (f ∙ e) own) (rw (f ∙ e) h))

unbookmark_row-Files :
    (post_id user_id : ℕ) (v : World) → Succeeds (Files v.db) (unbookmark_row post_id user_id v)
unfolding unbookmark_row
unbookmark_row-Files post_id user_id v =
    Succeeds-bind (λ _ d. d ≡ v.db) (Files v.db) (reach v) _ (reach-Succeeds v)
      λ _ x e h.
        every-delete (is_filed x.db.engagements.bookmark_categories) (is_mark post_id user_id)
          x.db.engagements.post_bookmarks (rw e h)

-- A category more leaves the bookmarks filed.
filed-more :
    (cs : List BookmarkCategory) (c : BookmarkCategory) (bs : List PostBookmark)
    → every (is_filed cs) bs ≡ true
    → every (is_filed (cs ++ c ∷ [])) bs ≡ true
filed-more cs c [] h = refl
filed-more cs c (b ∷ bs) h = elim (Option-cases b.category_id) [
  | inl free ↦ ground (arith, free, filed-more cs c bs)
  | inr (id, there) ↦
      ground (arith, there, any-append_one (owns_category id b.user_id) cs c, filed-more cs c bs)
]

create_row-Files :
    (user_id : ℕ) (name color : String) (v : World)
    → Succeeds (Files v.db) (create_category_row user_id name color v)
unfolding create_category_row
create_row-Files user_id name color v =
    Succeeds-bind (λ _ d. d ≡ v.db) (Files v.db) (reach v) _ (reach-Succeeds v)
      λ _ x e.
        let c : BookmarkCategory = record {
          category_id = x.sequence;
          user_id = user_id;
          category_name = name;
          color = color;
          created_at = x.now;
        } in
        of_call (λ d. is_owned v.db ≡ true → is_owned d ≡ true)
          (insert_category c (next_serial x).1) (λ h. insert-owned c (next_serial x).1 (rw e h))
  where
    insert-owned :
        (c : BookmarkCategory) (y : World)
        → is_owned y.db ≡ true
        → is_owned (insert_category c y).1.db ≡ true
    insert-owned c y h =
        ground
          (arith, filed-more y.db.engagements.bookmark_categories c y.db.engagements.post_bookmarks)

-- A category less, with its bookmarks set free, too.
filed-less :
    (category_id user_id : ℕ) (cs : List BookmarkCategory) (b : PostBookmark)
    → is_filed cs b ≡ true
    → is_in_category category_id b ≡ false
    → is_filed (delete (owns_category category_id user_id) cs) b ≡ true
filed-less category_id user_id cs b h other = elim (Option-cases b.category_id) [
  | inl free ↦ rw free refl
  | inr (id, there) ↦ ground (
    arith,
    there,
    any-delete_ne (owns_category id b.user_id) (owns_category category_id user_id)
        (λ c m. ground (arith, there)) cs,
  )
]

delete_row-Files :
    (user_id category_id : ℕ) (v : World)
    → Succeeds (Files v.db) (delete_category_row user_id category_id v)
unfolding delete_category_row
delete_row-Files user_id category_id v =
    Succeeds-bind (λ _ d. d ≡ v.db) (Files v.db) (reach v) _ (reach-Succeeds v)
      λ _ x e.
        elim (Bool-cases
          (any (owns_category category_id user_id) x.db.engagements.bookmark_categories)) [
            | inl there ↦ rw there (λ h.
                every-update (is_filed x.db.engagements.bookmark_categories)
                  (is_filed (
                    delete (owns_category category_id user_id)
                      x.db.engagements.bookmark_categories))
                  (is_in_category category_id) (λ b. record b { category_id = none })
                  x.db.engagements.post_bookmarks (λ b _ _. refl)
                  (λ b f o.
                    filed-less category_id user_id x.db.engagements.bookmark_categories b f o)
                  (rw e h))
            | inr missing ↦ rw missing tt
          ]

-- The calls on bookmarks and categories.
pub data FilingOp : Type 0 where
  op_file : ℕ → ℕ → Option ℕ → FilingOp
  op_unfile op_remove : ℕ → ℕ → FilingOp
  op_create : ℕ → String → String → FilingOp

abbrev pub file : FilingOp → World → World
file (op_file post_id user_id category_id) w = (bookmark post_id user_id category_id w).1
file (op_unfile post_id user_id) w = (unbookmark post_id user_id w).1
file (op_remove user_id category_id) w = (delete_bookmark_category user_id category_id w).1
file (op_create user_id name color) w = (create_bookmark_category user_id name color w).1

kept :
    {A : Type 0} (w : World) (r : Result A × World)
    → is_owned w.db ≡ true
    → Ends w (Files w.db) r
    → is_owned r.1.db ≡ true
kept w r h = Ends-keeps (λ d. is_owned d ≡ true) w r h (λ _ d f. f h)

-- Whatever is done to bookmarks and categories, and wherever the database fails: where every
-- bookmark has no category or one that belongs to its own user, every bookmark still has.
pub file-is_owned :
    (op : FilingOp) (w : World) → is_owned w.db ≡ true → is_owned (file op w).db ≡ true
unfolding bookmark unbookmark delete_bookmark_category create_bookmark_category
file-is_owned (op_file post_id user_id category_id) w h =
    kept w (transaction (bookmark_row post_id user_id category_id) w) h (
      transaction-From Files w (bookmark_row post_id user_id category_id)
        (bookmark_row-Files post_id user_id category_id))
file-is_owned (op_unfile post_id user_id) w h =
    kept w (transaction (unbookmark_row post_id user_id) w) h (
      transaction-From Files w (unbookmark_row post_id user_id)
        (unbookmark_row-Files post_id user_id))
file-is_owned (op_remove user_id category_id) w h =
    kept w (transaction (delete_category_row user_id category_id) w) h (
      transaction-From Files w (delete_category_row user_id category_id)
        (delete_row-Files user_id category_id))
file-is_owned (op_create user_id name color) w h =
    kept w (create_bookmark_category user_id name color w) h (
      raise_if-Ends (Files w.db) w (not (is_hex_color color)) _
        (transaction (create_category_row user_id name color))
        λ _.
          transaction-From Files w (create_category_row user_id name color)
            (create_row-Files user_id name color))
