-- ===== src/Engagement/Undo.antt =====
-- A like that is taken back.
use gaggle.Prelude.{
  ℕ, ◌≡◌, ap, refl, inl, inr, Bool, true, false, List, [], ◌∷◌, ◌++◌, arith, ◌==◌, Bool-cases, any,
  count, update, delete,
}
use gaggle.AppErrors.{ok}
use gaggle.Database.{Post, Engagement, World, reach, transaction}
use gaggle.Publishing.{has_id}
use gaggle.Engagement.Store.{
  is_of, has_keys, like_row, unlike_row, add_likes, drop_likes, new_engagement,
}
use gaggle.Engagement.Service.{like, unlike}

delete-append_one :
    {A : Type 0} (p : A → Bool) (xs : List A) (x : A)
    → any p xs ≡ false
    → p x ≡ true
    → delete p (xs ++ x ∷ []) ≡ xs
delete-append_one p [] x h k = ground (arith, k)
delete-append_one p (y ∷ xs) x h k = ground (arith, k, delete-append_one p xs x)

count-append_first :
    {A : Type 0} (p : A → Bool) (xs : List A) (x : A)
    → any p xs ≡ false
    → p x ≡ true
    → count p (xs ++ x ∷ []) ≡ 1
count-append_first p [] x h k = ground (arith, k)
count-append_first p (y ∷ xs) x h k = ground (arith, k, count-append_first p xs x)

any-append_first :
    {A : Type 0} (p : A → Bool) (xs : List A) (x : A) → p x ≡ true → any p (xs ++ x ∷ []) ≡ true
any-append_first p [] x k = ground (arith, k)
any-append_first p (y ∷ xs) x k = ground (arith, k, any-append_first p xs x)

cons-cong : {A : Type 0} {x y : A} {xs ys : List A} → x ≡ y → xs ≡ ys → x ∷ xs ≡ y ∷ ys
cons-cong e f = ground (arith, e, f)

drop-add_likes :
    (id : ℕ) (posts : List Post)
    → update (has_id id) (drop_likes 1) (update (has_id id) (add_likes 1) posts) ≡ posts
drop-add_likes id [] = refl
drop-add_likes id (p ∷ posts) = elim (Bool-cases (p.id == id)) [
  | inl here ↦
      let e : drop_likes 1 (add_likes 1 p) ≡ p =
        ap (λ n. record p { likes_count = n }) (omega arith) in
      rw (here, here) (cons-cong e (drop-add_likes id posts))
  | inr other ↦ ground (arith, other, drop-add_likes id posts)
]

-- Where the user has not liked a post of the tables and the database answers, a like is reported as
-- new, liking again is reported as not new and changes no table, and taking the like back leaves
-- the tables exactly as they were before, with the post's count.
pub unlike-like :
    (post_id user_id : ℕ) (w : World)
    → w.faults ≡ []
    → has_keys w.db post_id user_id ≡ true
    → any (is_of post_id user_id) w.db.engagements.post_likes ≡ false
    → let liked = (like post_id user_id w).1 in
      (((like post_id user_id w).0 ≡ ok true)
        × ((like post_id user_id liked).0 ≡ ok false)
        × ((like post_id user_id liked).1.db ≡ liked.db)
        × ((unlike post_id user_id liked).0 ≡ ok tt)
        × ((unlike post_id user_id liked).1.db ≡ w.db))
unfolding like unlike like_row unlike_row transaction reach
unlike-like post_id user_id w answers keys new =
    let row : Engagement = new_engagement w.sequence post_id user_id w.now in
    let own : is_of post_id user_id row ≡ true = ground arith in
    let likes = w.db.engagements.post_likes in
    rw
      (
        answers,
        new,
        keys,
        any-append_first (is_of post_id user_id) likes row own,
        count-append_first (is_of post_id user_id) likes row new own,
        delete-append_one (is_of post_id user_id) likes row new own,
        drop-add_likes post_id w.db.posts,
      )
      (refl, refl, refl, refl, refl)
