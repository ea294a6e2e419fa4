-- ===== src/Posts/Filter.antt =====
-- Which posts the filter keeps, against a description of who may see a post.
use gaggle.Prelude.{
  ℕ, ◌≡◌, refl, inl, inr, Bool, true, false, not, ◌&&◌, ◌||◌, List, [], ◌∷◌, Option, none, some,
  arith, ◌==◌, str_eq, if◌then◌else◌, Bool-cases, Option-cases, find, select, any,
}
use gaggle.Database.{pure, ◌>>=◌, UserRelationship, Post, Db, World, reach, Ends}
use gaggle.Accounts.{get_is_private, is_private_in}
use gaggle.Relationships.{
  RelationshipStatus, no_status, add_type, scan_status, between, is_row, get_relationship_statuses,
}
use gaggle.Relationships.Block.{has}
use gaggle.Posts.Visibility.{
  author_ids, keep_shown, shows, filter_visible_posts, get_full_post_by_id, can_view_post,
  visibility_followers, visibility_mentions,
}

-- The account is private.
abbrev pub is_private_account : Db → ℕ → Bool
is_private_account d id = elim (find (λ u. u.id == id) d.users) [
  | none ↦ false
  | some u ↦ u.is_private
]

abbrev pub mentions_user : Post → ℕ → Bool
mentions_user p user = any (λ id. id == user) p.mentioned_user_ids

-- The author sees the post. Anybody else must follow an author whose account is private, and be a
-- follower, or mentioned, where the post asks for it.
abbrev pub can_see : Db → ℕ → Post → Bool
can_see d viewer p =
    p.author_id == viewer
    || ((not (is_private_account d p.author_id) || has d viewer p.author_id "follow")
        && (if str_eq p.visibility visibility_followers
            then has d viewer p.author_id "follow"
            else if str_eq p.visibility visibility_mentions
            then mentions_user p viewer
            else true))

-- The posts that are not nil.
abbrev pub present : List (Option Post) → List Post
present [] = []
present (none ∷ posts) = present posts
present (some p ∷ posts) = p ∷ present posts

scan_following :
    (s : RelationshipStatus) (viewer id : ℕ) (rows : List UserRelationship)
    → (scan_status s (select (between viewer id) rows)).is_following
      ≡ (s.is_following || any (is_row viewer id "follow") rows)
unfolding scan_status
scan_following s viewer id [] = ground arith
scan_following s viewer id (r ∷ rows) = ground (
  arith,
  scan_following s viewer id rows,
  scan_following (add_type s r.relationship_type) viewer id rows,
)

author_ids_tail :
    (viewer id : ℕ) (p : Post) (posts : List (Option Post))
    → any (λ i. i == id) (author_ids viewer posts) ≡ true
    → any (λ i. i == id) (author_ids viewer (some p ∷ posts)) ≡ true
unfolding author_ids
author_ids_tail viewer id p posts h = ground arith

author_ids_head :
    (viewer : ℕ) (p : Post) (posts : List (Option Post))
    → (p.author_id == viewer) ≡ false
    → any (λ i. i == p.author_id) (author_ids viewer (some p ∷ posts)) ≡ true
unfolding author_ids
author_ids_head viewer p posts n = ground arith

-- The two maps, filled for the ids.
record Reads (d : Db) (viewer : ℕ) (ids : List ℕ) (statuses : ℕ → Option RelationshipStatus)
    (is_private : ℕ → Bool) : Type 0 where
  status :
      (id : ℕ)
      → any (λ i. i == id) ids ≡ true
      → (s : RelationshipStatus) × ((statuses id ≡ some s)
          × (s.is_following ≡ has d viewer id "follow"))
  private_flag : (id : ℕ) → any (λ i. i == id) ids ≡ true → is_private id ≡ is_private_account d id

shows_lem :
    (d : Db) (viewer : ℕ) (ids : List ℕ) (statuses : ℕ → Option RelationshipStatus)
    (is_private : ℕ → Bool) (p : Post)
    → Reads d viewer ids statuses is_private
    → ((p.author_id == viewer) ≡ false → any (λ i. i == p.author_id) ids ≡ true)
    → shows statuses is_private viewer p ≡ some (can_see d viewer p)
shows_lem d viewer ids statuses is_private p reads covered =
    elim (Bool-cases (p.author_id == viewer)) [
      | inl own ↦ ground arith
      | inr other ↦
          let (s, (e, f)) = reads.status p.author_id (covered other) in
          ground (arith, reads.private_flag p.author_id (covered other))
    ]

keep_shown_lem :
    (d : Db) (viewer : ℕ) (ids : List ℕ) (statuses : ℕ → Option RelationshipStatus)
    (is_private : ℕ → Bool) (posts : List (Option Post))
    → Reads d viewer ids statuses is_private
    → ((id : ℕ)
        → any (λ i. i == id) (author_ids viewer posts) ≡ true
        → any (λ i. i == id) ids ≡ true)
    → keep_shown statuses is_private viewer posts ≡ some (select (can_see d viewer) (present posts))
unfolding keep_shown author_ids
keep_shown_lem d viewer ids statuses is_private [] reads h = refl
keep_shown_lem d viewer ids statuses is_private (none ∷ posts) reads h =
    keep_shown_lem d viewer ids statuses is_private posts reads h
keep_shown_lem d viewer ids statuses is_private (some p ∷ posts) reads h =
    rw
      (
        shows_lem d viewer ids statuses is_private p reads
            (λ n. h p.author_id (author_ids_head viewer p posts n)),
        keep_shown_lem d viewer ids statuses is_private posts reads
            (λ id m. h id (author_ids_tail viewer id p posts m)),
      )
      refl

maps_Reads :
    (d : Db) (viewer i : ℕ) (ids : List ℕ)
    → Reads d viewer
        (i ∷ ids)
        (λ id.
          if any (λ j. j == id) (i ∷ ids)
          then some (scan_status no_status (select (between viewer id) d.relationships))
          else none)
        (is_private_in d.users (i ∷ ids))
maps_Reads d viewer i ids = record {
  status = λ id m. (
    scan_status no_status (select (between viewer id) d.relationships),
    (rw m refl, scan_following no_status viewer id d.relationships),
  );
  private_flag = λ id m. ground arith;
}

empty_Reads : (d : Db) (viewer : ℕ) → Reads d viewer [] (λ id. none) (λ id. false)
empty_Reads d viewer = record { status = λ id m. ground arith; private_flag = λ id m. ground arith }

shown_reads :
    (w : World) (viewer : ℕ) (ids : List ℕ) (posts : List (Option Post))
    → ((id : ℕ)
        → any (λ i. i == id) (author_ids viewer posts) ≡ true
        → any (λ i. i == id) ids ≡ true)
    → Ends w
        (λ r d. (r ≡ some (select (can_see w.db viewer) (present posts))) × (d ≡ w.db))
        ((do
          statuses ← get_relationship_statuses viewer ids
          is_private ← get_is_private ids
          pure (keep_shown statuses is_private viewer posts))
          w)
unfolding get_relationship_statuses get_is_private reach
shown_reads w viewer [] posts h = (
  keep_shown_lem w.db viewer [] (λ id. none) (λ id. false) posts (empty_Reads w.db viewer) h,
  refl,
)
shown_reads w viewer (i ∷ ids) posts h = ground (
  arith,
  keep_shown_lem w.db viewer (i ∷ ids)
      (λ id.
        if any (λ j. j == id) (i ∷ ids)
        then some (scan_status no_status (select (between viewer id) w.db.relationships))
        else none)
      (is_private_in w.db.users (i ∷ ids)) posts (maps_Reads w.db viewer i ids) h,
)

-- The filter is exact: wherever the database fails, it returns an error, or it returns exactly the
-- posts that are not nil and that the viewer may see, in their order, without a nil dereference; it
-- changes no table.
pub filter_visible_posts-Ends :
    (w : World) (posts : List (Option Post)) (viewer : ℕ)
    → Ends w
        (λ r d. (r ≡ some (select (can_see w.db viewer) (present posts))) × (d ≡ w.db))
        (filter_visible_posts posts viewer w)
unfolding filter_visible_posts
filter_visible_posts-Ends w posts viewer =
    shown_reads w viewer (author_ids viewer posts) posts (λ id h. h)

-- The row that `GetFullPostByID` reads.
abbrev pub live_post : Db → ℕ → Option Post
live_post d id =
    find (λ p. p.id == id && not p.soft_deleted && any (λ u. u.id == p.author_id) d.users) d.posts

can_view_found :
    (w : World) (post_id viewer : ℕ) (p : Post)
    → live_post w.db post_id ≡ some p
    → Ends w (λ r d. r ≡ some (can_see w.db viewer p)) (can_view_post post_id viewer w)
unfolding can_view_post get_full_post_by_id reach
can_view_found w post_id viewer p found =
    ground (arith, found, filter_visible_posts-Ends (reach w).1 (some p ∷ []) viewer)

can_view_missing :
    (w : World) (post_id viewer : ℕ)
    → live_post w.db post_id ≡ none
    → Ends w (λ r d. ⊥) (can_view_post post_id viewer w)
unfolding can_view_post get_full_post_by_id reach
can_view_missing w post_id viewer missing = ground (arith, missing)

-- Where a post that is not deleted is there under the id, the answer of CanViewPost is whether the
-- viewer may see it, and where none is there, or the database fails, it is an error.
pub can_view_post-Ends :
    (w : World) (post_id viewer : ℕ)
    → Ends w
        (λ r d. elim (live_post w.db post_id) [
          | none ↦ ⊥
          | some p ↦ r ≡ some (can_see w.db viewer p)
        ])
        (can_view_post post_id viewer w)
can_view_post-Ends w post_id viewer = elim (Option-cases (live_post w.db post_id)) [
  | inl missing ↦ rw missing (can_view_missing w post_id viewer missing)
  | inr (p, found) ↦ rw found (can_view_found w post_id viewer p found)
]
