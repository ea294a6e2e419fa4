-- ===== src/Publishing/Creation.antt =====
-- New posts.
use gaggle.Prelude.{
  ℕ, ◌≡◌, refl, sym, ◌∙◌, inl, inr, Bool, true, false, not, ◌&&◌, ◌||◌, String, List, [], Option,
  none, some, arith, str_eq, Bool-cases, Option-cases, find,
}
use mathlib.Core.Path.{subst}
use gaggle.AppErrors.{Result, ok, err}
use gaggle.Database.{
  bind_at, Ends-bind_at, transaction_at, Post, Db, World, reach, transaction, pure, raise_if, ◌>>◌,
  Ends, Ends-map, Ends-db, Succeeds, Succeeds-bind, Succeeds-map, raise_if-Succeeds,
  require-Succeeds,
}
use gaggle.Posts.{
  validate_poll, get_post, CreatePollPayload, validate_content_length, trim_space,
  resolve_visibility_and_mentions,
}
use gaggle.Posts.Mentions.{Resolved, resolve_visibility_and_mentions-Ends}
use gaggle.Posts.Audience.{now-resolve_visibility_and_mentions}
use gaggle.Publishing.Rows.{Appends, create_post_row_lem, now-check_parent, now-check_poll}
use gaggle.Publishing.Store.{has_id, create_post_row}
use gaggle.Publishing.Frames.{
  Returns, then-Returns, poll-KeepsPosts, link-KeepsPosts, indexes-KeepsPosts,
}
use gaggle.Publishing.Service.{
  CreatePostNewsPayload, PostMediaRequest, check_parent, require, check_poll, has_parent, is_there,
  is_empty, write_indexes, no_news, write_new, create_body, create_post, create_poll, create_link,
}

-- A parent that is there and not deleted, where the post has one.
abbrev pub parent_lives : Db → Option ℕ → Bool
parent_lives d none = true
parent_lives d (some id) = elim (find (has_id id) d.posts) [
  | none ↦ false
  | some p ↦ not p.soft_deleted
]

check_parent_lem :
    (parent : Option ℕ) (v : World)
    → Succeeds (λ _ d. (parent_lives v.db parent ≡ true) × (d ≡ v.db)) (check_parent parent v)
unfolding check_parent get_post reach
check_parent_lem none v = (refl, refl)
check_parent_lem (some id) v = elim (Option-cases (find (has_id id) v.db.posts)) [
  | inl missing ↦ ground (arith, missing)
  | inr (p, found) ↦ ground (arith, found)
]

-- A post that Create accepts: its parent lives, a poll or news hang on a top-level post only, and its
-- row is new.
pub record Creates (before : Db) (now : ℕ) (post : Post) (poll : Option CreatePollPayload)
    (news : Option CreatePostNewsPayload) (created : Post) (d : Db) : Type 0 where
  pub parent : parent_lives before post.parent_id ≡ true
  pub appends : Appends before now post created d
  pub top_level : ((is_there poll || is_there news) && has_parent post) ≡ false

poll_guard :
    (post : Post) (poll : Option CreatePollPayload) (v : World)
    → Succeeds
        (λ _ d. ((is_there poll && has_parent post) ≡ false) × (d ≡ v.db))
        (check_poll post poll v)
poll_guard post none v = (refl, refl)
poll_guard post (some poll) v = elim (Bool-cases (has_parent post)) [
  | inl reply ↦ rw reply tt
  | inr top ↦ rw top (require_unit (validate_poll (record poll { question = post.content })) v)
]
  where
    require_unit :
        (r : Result (Unit {0})) (w : World)
        → Succeeds (λ _ d. (false ≡ false) × (d ≡ w.db)) (require r w)
    require_unit (ok u) w = (refl, refl)
    require_unit (err e) w = tt

-- The steps after the INSERT keep the posts.
keep_row :
    (b : Db) (now : ℕ) (post created : Post) (z d : Db)
    → Appends b now post created z
    → d.posts ≡ z.posts
    → Appends b now post created d
keep_row b now post created z d h kept = record {
  row = h.row;
  writer = h.writer;
  short = h.short;
  posts = kept ∙ h.posts;
}

module _ (lower : String → String) (parse_uuid : String → Option String) where
  create_tail :
      (created : Post) (media : List PostMediaRequest) (poll : Option CreatePollPayload)
      (news : Option CreatePostNewsPayload)
      → Returns created (do
        write_indexes lower parse_uuid created media
        create_poll created poll
        create_link created.id news
        pure created)
  create_tail created media poll news =
      then-Returns created (write_indexes lower parse_uuid created media) _
        (indexes-KeepsPosts lower parse_uuid created media)
        (then-Returns created (create_poll created poll) _ (poll-KeepsPosts created poll) (
          then-Returns created (create_link created.id news) _ (link-KeepsPosts created.id news)
            (λ w. (refl, refl))))

  write_new-Creates :
      (post : Post) (media : List PostMediaRequest) (poll : Option CreatePollPayload)
      (news : Option CreatePostNewsPayload) (y : World)
      → parent_lives y.db post.parent_id ≡ true
      → ((is_there poll || is_there news) && has_parent post) ≡ false
      → Succeeds
          (Creates y.db y.now post poll news)
          (write_new lower parse_uuid post media poll news y)
  unfolding write_new
  write_new-Creates post media poll news y lives top =
      Succeeds-bind (λ created. Appends y.db y.now post created) (Creates y.db y.now post poll news)
        (create_post_row none post y) _ (create_post_row_lem post y)
        λ created z row.
          Succeeds-map (λ p d. (p ≡ created) × (d.posts ≡ z.db.posts))
            (Creates y.db y.now post poll news) _
            (λ p d (same, kept). record {
              parent = lives;
              appends =
                  subst (λ c. Appends y.db y.now post c d) (sym same)
                    (keep_row y.db y.now post created z.db d row kept);
              top_level = top;
            })
            (create_tail created media poll news z)

  write_new_at :
      (post : Post) (media : List PostMediaRequest) (poll : Option CreatePollPayload)
      (news : Option CreatePostNewsPayload) (y : World) (b : Db) (now : ℕ)
      → y.db ≡ b
      → y.now ≡ now
      → Succeeds
          (Creates y.db y.now post poll news)
          (write_new lower parse_uuid post media poll news y)
      → Succeeds (Creates b now post poll news) (write_new lower parse_uuid post media poll news y)
  write_new_at post media poll news y b now e at h =
      subst
        (λ t.
          Succeeds (Creates b t post poll news) (write_new lower parse_uuid post media poll news y))
        at
        (subst
          (λ b.
            Succeeds (Creates b y.now post poll news)
              (write_new lower parse_uuid post media poll news y))
          e h)

  create_body-Creates :
      (post : Post) (media : List PostMediaRequest) (poll : Option CreatePollPayload)
      (news : Option CreatePostNewsPayload) (now : ℕ) (v : World)
      → v.now ≡ now
      → Succeeds
          (Creates v.db now post poll news)
          (create_body lower parse_uuid post media poll news v)
  unfolding create_body
  create_body-Creates post media poll news now v at =
      let P : Post → Db → Type 0 = Creates v.db now post poll news in
      bind_at (λ _ d. (parent_lives v.db post.parent_id ≡ true) × (d ≡ v.db)) P now
        (check_parent post.parent_id v) _ (now-check_parent post.parent_id v ∙ at)
        (check_parent_lem post.parent_id v)
        λ _ x at_x (lives, e).
          raise_if-Succeeds P x (is_empty media && str_eq (trim_space post.content) "") _
            (do
              require (validate_content_length post.content)
              check_poll post poll
              raise_if (is_there news && has_parent post) no_news
              write_new lower parse_uuid post media poll news)
            λ given.
              require-Succeeds P x (validate_content_length post.content)
                (λ _. do
                  check_poll post poll
                  raise_if (is_there news && has_parent post) no_news
                  write_new lower parse_uuid post media poll news)
                λ _ fits.
                  bind_at (λ _ d. ((is_there poll && has_parent post) ≡ false) × (d ≡ x.db)) P now
                    (check_poll post poll x) _ (now-check_poll post poll x ∙ at_x)
                    (poll_guard post poll x)
                    λ _ y at_y (top, f).
                      raise_if-Succeeds P y (is_there news && has_parent post) no_news
                        (write_new lower parse_uuid post media poll news)
                        λ top'. write_new_at post media poll news y v.db now (f ∙ e) at_y (
                          write_new-Creates post media poll news y (rw (f ∙ e) lives)
                            (ground (arith, top, top')))

  -- Creating a post that comes without an audience, wherever the database fails: an error changes no
  -- table. After a success the post was resolved to the visibility that was asked for and its
  -- audience, the parent, where it has one, is there and not deleted, and a poll or news hang on a
  -- top-level post only. Exactly one row is new, the last: its author exists; it has the post's
  -- author, parent and content, of at most 280 characters, and the resolved visibility and audience;
  -- it is live, not pinned, not edited and no quote, its counts are zero, and its time is the post's,
  -- or the clock's where the post has none. The parent counts one reply more, and no other row has
  -- changed.
  pub create_post-Creates :
      (w : World) (post : Post) (media : List PostMediaRequest) (poll : Option CreatePollPayload)
      (news : Option CreatePostNewsPayload)
      → post.mentioned_user_ids ≡ []
      → Ends w
          (λ created d.
            (resolved : Post) × Resolved lower w.db post resolved
            × Creates w.db w.now resolved poll news created d)
          (create_post lower parse_uuid post media poll news w)
  unfolding create_post
  create_post-Creates w post media poll news empty =
      Ends-bind_at _ _ w (resolve_visibility_and_mentions lower post w) _
        (now-resolve_visibility_and_mentions lower post w)
        (resolve_visibility_and_mentions-Ends lower w post empty)
        λ resolved v at (is_resolved, e).
          Ends-db _ w v (transaction (create_body lower parse_uuid resolved media poll news) v) e (
            Ends-map v (transaction (create_body lower parse_uuid resolved media poll news) v)
              (λ created d made. (
                resolved,
                is_resolved,
                subst (λ b. Creates b w.now resolved poll news created d) e made,
              ))
              (transaction_at (λ b. Creates b w.now resolved poll news) v
                (create_body lower parse_uuid resolved media poll news)
                (λ x at_x. create_body-Creates resolved media poll news w.now x (at_x ∙ at))))
