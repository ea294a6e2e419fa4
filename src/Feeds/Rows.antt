-- ===== src/Feeds/Rows.antt =====
-- The rows of a feed, read back from the table, and the pages that they are cut into.
use gaggle.Prelude.{
  ℕ, zero, suc, ◌≤◌, ◌≡◌, refl, ap, Bool, true, false, not, ◌&&◌, List, [], ◌∷◌, ◌++◌, some, arith,
  ◌==◌, find, select, any, All, ◌-◌, map, length, take, drop,
}
use gaggle.AppErrors.{ok}
use gaggle.Database.{User, Post, Db, World, reach}
use gaggle.Posts.{get_full_post_by_id}
use gaggle.Pages.{newest_first, is_keyed}
use gaggle.Feeds.Store.{load_full, last}

-- The posts of a feed, newest first.
abbrev pub feed_rows : (Db → Post → Bool) → Db → List Post
feed_rows fits d = select (fits d) (newest_first Post.created_at Post.id d.posts)

-- Every post has its author's row, and no two posts have one id.
pub record IsPostTable (d : Db) : Type 0 where
  pub keyed : is_keyed Post.created_at Post.id d.posts ≡ true
  pub authors : All (λ p. any (λ u. u.id == p.author_id) d.users ≡ true) d.posts

pub reach_quiet : (w : World) → w.faults ≡ [] → reach w ≡ (ok tt, w)
unfolding reach
reach_quiet w works = ground (arith, works)

-- The rows that the hydration reads for a post of the table.
abbrev pub IsRead : Db → Post → Type 0
IsRead d p =
    (find (λ q. q.id == p.id) d.posts ≡ some p) × (any (λ u. u.id == p.author_id) d.users ≡ true)

pub find-cons :
    (x : Post) (xs ys : List Post)
    → any (λ q. q.id == x.id) ys ≡ false
    → All (λ p. find (λ q. q.id == p.id) xs ≡ some p) ys
    → All (λ p. find (λ q. q.id == p.id) (x ∷ xs) ≡ some p) ys
find-cons x xs [] new h = tt
find-cons x xs (y ∷ ys) new (p, h) = (ground arith, find-cons x xs ys (ground arith) h)

pub find_keyed :
    (xs : List Post)
    → is_keyed Post.created_at Post.id xs ≡ true
    → All (λ p. find (λ q. q.id == p.id) xs ≡ some p) xs
find_keyed [] h = tt
find_keyed (x ∷ xs) h =
    (ground arith, find-cons x xs xs (ground arith) (find_keyed xs (ground arith)))

pub All-zip : (P Q : Post → Type 0) (xs : List Post) → All P xs → All Q xs → All (λ p. P p × Q p) xs
All-zip P Q [] h k = tt
All-zip P Q (x ∷ xs) (p, h) (q, k) = ((p, q), All-zip P Q xs h k)

pub find_shown :
    (k : ℕ) (users : List User) (xs : List Post) (a : Post)
    → find (λ q. q.id == k) xs ≡ some a
    → (not a.soft_deleted && any (λ u. u.id == a.author_id) users) ≡ true
    → find (λ q. q.id == k && not q.soft_deleted && any (λ u. u.id == q.author_id) users) xs
      ≡ some a
find_shown k users [] a h shown = ground arith
find_shown k users (x ∷ xs) a h shown = ground (arith, find_shown k users xs a)

pub All-map :
    (P Q : Post → Type 0) → ((p : Post) → P p → Q p) → (xs : List Post) → All P xs → All Q xs
All-map P Q f [] h = tt
All-map P Q f (x ∷ xs) (p, h) = (f x p, All-map P Q f xs h)

pub all_read : (d : Db) → IsPostTable d → All (IsRead d) d.posts
all_read d table = All-zip _ _ d.posts (find_keyed d.posts table.keyed) table.authors

-- What the pages rest on: a row of the feed is read back, and is not deleted.
abbrev pub IsShown : Db → Post → Type 0
IsShown d p = IsRead d p × (p.soft_deleted ≡ false)

pub load_lem :
    (w : World) (ps : List Post)
    → w.faults ≡ []
    → All (IsShown w.db) ps
    → load_full (map Post.id ps) w ≡ (ok ps, w)
unfolding load_full get_full_post_by_id
load_lem w [] works h = refl
load_lem w (p ∷ ps) works (((found, author), live), h) =
    rw
      (
        reach_quiet w works,
        find_shown p.id w.db.users w.db.posts p found (ground arith),
        load_lem w ps works h,
      )
      refl

-- The end of a page that is full: its last row, and the rows behind it.
pub record Full (limit : ℕ) (ys : List Post) : Type 0 where
  pub front : List Post
  pub end : Post
  pub rows : take limit ys ≡ front ++ end ∷ []
  pub whole : ys ≡ front ++ end ∷ drop limit ys
  pub size : length (take limit ys) ≡ limit

pub whole_page : (limit : ℕ) (ys : List Post) → 1 ≤ limit → limit ≤ length ys → Full limit ys
whole_page zero ys h k = absurd (omega arith)
whole_page (suc n) [] h k = absurd (omega arith)
whole_page (suc zero) (y ∷ ys) h k = record {
  front = [];
  end = y;
  rows = refl;
  whole = refl;
  size = refl;
}
whole_page (suc (suc n)) (y ∷ ys) h k =
    let page = whole_page (suc n) ys (omega arith) (omega arith) in
    record {
      front = y ∷ page.front;
      end = page.end;
      rows = ap (λ zs. y ∷ zs) page.rows;
      whole = ap (λ zs. y ∷ zs) page.whole;
      size = ap suc page.size;
    }

pub take-take : (n m : ℕ) (ys : List Post) → n ≤ m → take n (take m ys) ≡ take n ys
take-take zero m ys h = refl
take-take (suc n) zero ys h = absurd (omega arith)
take-take (suc n) (suc m) [] h = refl
take-take (suc n) (suc m) (y ∷ ys) h = ap (λ zs. y ∷ zs) (take-take n m ys (omega arith))

pub map-take : (n : ℕ) (ys : List Post) → take n (map Post.id ys) ≡ map Post.id (take n ys)
map-take zero ys = refl
map-take (suc n) [] = refl
map-take (suc n) (y ∷ ys) = ap (λ zs. y.id ∷ zs) (map-take n ys)

pub length-map : (ys : List Post) → length (map Post.id ys) ≡ length ys
length-map [] = refl
length-map (y ∷ ys) = ap suc (length-map ys)

pub last-append : (xs : List ℕ) (a : ℕ) → last (xs ++ a ∷ []) ≡ some a
last-append [] a = refl
last-append (x ∷ []) a = refl
last-append (x ∷ y ∷ xs) a = last-append (y ∷ xs) a

pub map-append_one :
    (xs : List Post) (a : Post) → map Post.id (xs ++ a ∷ []) ≡ map Post.id xs ++ a.id ∷ []
map-append_one [] a = refl
map-append_one (x ∷ xs) a = ap (λ zs. x.id ∷ zs) (map-append_one xs a)

pub All-take : (P : Post → Type 0) (n : ℕ) (ys : List Post) → All P ys → All P (take n ys)
All-take P zero ys h = tt
All-take P (suc n) [] h = tt
All-take P (suc n) (y ∷ ys) (p, h) = (p, All-take P n ys h)

pub take_all : (n : ℕ) (ys : List Post) → length ys ≤ n → take n ys ≡ ys
take_all zero [] h = refl
take_all zero (y ∷ ys) h = absurd (omega arith)
take_all (suc n) [] h = refl
take_all (suc n) (y ∷ ys) h = ap (λ zs. y ∷ zs) (take_all n ys (omega arith))

pub take-drop : (n : ℕ) (ys : List Post) → take n ys ++ drop n ys ≡ ys
take-drop zero ys = refl
take-drop (suc n) [] = refl
take-drop (suc n) (y ∷ ys) = ap (λ zs. y ∷ zs) (take-drop n ys)

pub length-drop : (n : ℕ) (ys : List Post) → length (drop n ys) ≡ length ys - n
length-drop zero ys = omega arith
length-drop (suc n) [] = omega arith
length-drop (suc n) (y ∷ ys) = omega (arith, length-drop n ys)

pub All-last : (P : Post → Type 0) (xs : List Post) (a : Post) → All P (xs ++ a ∷ []) → P a
All-last P [] a (p, _) = p
All-last P (x ∷ xs) a (_, h) = All-last P xs a h

pub select-true : (p : Post → Bool) (ys : List Post) → select (λ q. p q && true) ys ≡ select p ys
select-true p [] = refl
select-true p (y ∷ ys) = ground (arith, select-true p ys)
