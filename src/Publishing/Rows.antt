-- ===== src/Publishing/Rows.antt =====
-- What the row of a new post is, column by column, and what its triggers count.
use Prim.Native.String.{count as rune_count}
use gaggle.Prelude.{
  ℕ, suc, ◌≤◌, ◌≡◌, refl, sym, ◌∙◌, ap, ◌⊎◌, inl, inr, true, false, List, [], ◌∷◌, ◌++◌, Option,
  none, some, arith, ◌==◌, if◌then◌else◌, Bool-cases, Option-cases, find, any, update, map,
}
use mathlib.Core.Path.{subst}
use gaggle.AppErrors.{Result, ok, err}
use gaggle.Database.{
  Post, Db, World, reach, Succeeds, Succeeds-map, reach-Succeeds, bind_at, now-reach, next_serial,
  StandsStill,
}
use gaggle.Posts.{get_post, CreatePollPayload, validate_poll}
use gaggle.Publishing.Store.{
  has_id, count_links, fits_posts, with_post, post_row, create_post_row, insert_post,
}
use gaggle.Publishing.Service.{check_parent, check_poll, require, has_parent}

-- The time of a new post: the clock's, where it comes with none.
abbrev pub IsTimeOf : ℕ → Post → ℕ → Type 0
IsTimeOf now post t =
    ((post.created_at ≡ 0) × (t ≡ now)) ⊎ (((post.created_at == 0) ≡ false) × (t ≡ post.created_at))

-- The columns of the row that a post becomes at a time, where the post is no quote.
pub record NewRow (now : ℕ) (post created : Post) : Type 0 where
  pub author : created.author_id ≡ post.author_id
  pub parent : created.parent_id ≡ post.parent_id
  pub quoted : created.quoted_post_id ≡ none
  pub content : created.content ≡ post.content
  pub visibility : created.visibility ≡ post.visibility
  pub audience : created.mentioned_user_ids ≡ post.mentioned_user_ids
  pub time : IsTimeOf now post created.created_at
  pub live : created.soft_deleted ≡ false
  pub unpinned : created.is_pinned ≡ false
  pub unedited : created.edited_at ≡ none
  pub likes : created.likes_count ≡ 0
  pub reposts : created.reposts_count ≡ 0
  pub quotes : created.quotes_count ≡ 0
  pub bookmarks : created.bookmarks_count ≡ 0
  pub views : created.views_count ≡ 0
  pub replies : created.replies_count ≡ 0

-- The reply counted at its parent.
abbrev pub raise_replies : Option ℕ → Post → Post
raise_replies none p = p
raise_replies (some id) p =
    if p.id == id then record p { replies_count = suc p.replies_count } else p

-- One row is new, the last, by an author who exists and with a text that is not too long; the post it
-- answers counts one reply more, and no other row has changed.
pub record Appends (before : Db) (now : ℕ) (post created : Post) (d : Db) : Type 0 where
  pub row : NewRow now post created
  pub writer : any (λ u. u.id == post.author_id) before.users ≡ true
  pub short : rune_count post.content ≤ 280
  pub posts : d.posts ≡ map (raise_replies post.parent_id) (before.posts ++ created ∷ [])

time_lem :
    (now : ℕ) (post : Post)
    → IsTimeOf now post (if post.created_at == 0 then now else post.created_at)
time_lem now post = elim (Bool-cases (post.created_at == 0)) [
  | inl zero_time ↦ rw zero_time (inl (ground (arith, zero_time), refl))
  | inr given ↦ rw given (inr (refl, refl))
]

row_lem : (id now : ℕ) (post : Post) → NewRow now post (post_row id now none post)
row_lem id now post = record {
  author = refl;
  parent = refl;
  quoted = refl;
  content = refl;
  visibility = refl;
  audience = refl;
  time = time_lem now post;
  live = refl;
  unpinned = refl;
  unedited = refl;
  likes = refl;
  reposts = refl;
  quotes = refl;
  bookmarks = refl;
  views = refl;
  replies = refl;
}

abbrev with_counts : Post → ℕ → ℕ → Post
with_counts p replies quotes = record p { replies_count = replies; quotes_count = quotes }

same_counts : (p : Post) (m n k l : ℕ) → m ≡ n → k ≡ l → with_counts p m k ≡ with_counts p n l
same_counts p m n k l e f = ap (λ r. with_counts p r k) e ∙ ap (with_counts p n) f

count_lem :
    (parent : Option ℕ) (new p : Post)
    → new.parent_id ≡ parent
    → new.quoted_post_id ≡ none
    → count_links new p ≡ raise_replies parent p
count_lem none new p e f = rw (e, f) (same_counts p _ _ _ _ (omega arith) (omega arith))
count_lem (some id) new p e f = elim (Bool-cases (p.id == id)) [
  | inl this ↦
      let flip : (id == p.id) ≡ true = ground (arith, this) in
      rw (e, f, this, flip) (same_counts p _ _ _ _ (omega arith) (omega arith))
  | inr other ↦
      let flip : (id == p.id) ≡ false = ground (arith, other) in
      rw (e, f, other, flip) (same_counts p _ _ _ _ (omega arith) (omega arith))
]

update_each :
    (f g : Post → Post) (xs : List Post)
    → ((p : Post) → f p ≡ g p)
    → update (λ q. true) f xs ≡ map g xs
update_each f g [] h = refl
update_each f g (x ∷ xs) h =
    ap (λ y. y ∷ update (λ q. true) f xs) (h x) ∙ ap (λ ys. g x ∷ ys) (update_each f g xs h)

insert_post_lem :
    (p : Post) (v : World)
    → Succeeds
        (λ c d. (c ≡ p) × (fits_posts v.db p ≡ true) × (d ≡ with_post p v.db))
        (insert_post p v)
insert_post_lem p v = elim (Bool-cases (fits_posts v.db p)) [
  | inl fits ↦ rw fits (refl, refl, refl)
  | inr fails ↦ rw fails tt
]

appends_lem :
    (b : Db) (id now : ℕ) (post : Post) (d : Db)
    → fits_posts b (post_row id now none post) ≡ true
    → d ≡ with_post (post_row id now none post) b
    → Appends b now post (post_row id now none post) d
appends_lem b id now post d fits e = record {
  row = row_lem id now post;
  writer = ground (arith, fits);
  short = ground (arith, fits);
  posts =
      ap Db.posts e
      ∙ update_each (count_links (post_row id now none post)) (raise_replies post.parent_id)
          (b.posts ++ post_row id now none post ∷ [])
          (λ p. count_lem post.parent_id (post_row id now none post) p refl refl);
}

pub create_post_row_lem :
    (post : Post) (v : World) → Succeeds (Appends v.db v.now post) (create_post_row none post v)
unfolding create_post_row
create_post_row_lem post v =
    bind_at _ _ v.now (reach v) _ (now-reach v) (reach-Succeeds v) λ _ x at e.
      Succeeds-map _ _ (insert_post (post_row x.sequence x.now none post) (next_serial x).1)
        (λ c d (same, fits, after).
          subst (λ c. Appends v.db v.now post c d) (sym same)
            (subst (λ b. Appends b v.now post (post_row x.sequence x.now none post) d) e
              (subst (λ t. Appends x.db t post (post_row x.sequence x.now none post) d) at
                (appends_lem x.db x.sequence x.now post d fits after))))
        (insert_post_lem (post_row x.sequence x.now none post) (next_serial x).1)

-- The steps before the INSERT leave the clock alone.
pub now-check_parent : (parent : Option ℕ) → StandsStill (check_parent parent)
unfolding check_parent get_post reach
now-check_parent none w = refl
now-check_parent (some id) w = elim (Option-cases (find (has_id id) w.db.posts)) [
  | inl missing ↦ ground (arith, missing)
  | inr (p, found) ↦ ground (arith, found)
]

now-require : (r : Result (Unit {0})) → StandsStill (require r)
now-require (ok u) w = refl
now-require (err e) w = refl

pub now-check_poll :
    (post : Post) (poll : Option CreatePollPayload) → StandsStill (check_poll post poll)
now-check_poll post none w = refl
now-check_poll post (some poll) w = elim (Bool-cases (has_parent post)) [
  | inl reply ↦ rw reply refl
  | inr top ↦ rw top (now-require (validate_poll (record poll { question = post.content })) w)
]
