-- ===== src/Publishing/Editing.antt =====
-- Editing a post.
use gaggle.Prelude.{
  ◌↔◌, ℕ, ◌≡◌, refl, ◌∙◌, ◌⊎◌, inl, inr, Bool, true, not, ◌&&◌, String, List, [], ◌∷◌, ◌++◌, some,
  arith, ◌==◌, str_eq, str_eq_iff, if◌then◌else◌, Bool-cases, Option-cases, find, any, update, ap,
}
use mathlib.Core.Path.{subst}
use gaggle.AppErrors.{Result, ok, err}
use gaggle.Database.{
  bind_at, transaction_at, Post, PostEdit, Db, World, M, reach, transaction, Ends, Ends-map,
  Succeeds, Succeeds-bind, Succeeds-map, raise_if-Ends, pure, ◌>>◌,
}
use gaggle.Publishing.Indexing.{
  without_index, is_mentioned, sync_hashtags-Indexes, sync_mentions-Indexes,
  sync_mentions-Mentioned,
}
use gaggle.Publishing.Names.{IsMentioned}
use gaggle.Publishing.Store.{create_edit, update_post_row, with_edits}
use gaggle.Publishing.Indexes.{sync_hashtags, sync_mentions}
use gaggle.Posts.{trim_space, validate_content_length}
use gaggle.Publishing.Service.{require, update_body, update_post}

abbrev pub is_editable : ℕ → ℕ → Post → Bool
is_editable post_id author_id p = p.id == post_id && p.author_id == author_id && not p.soft_deleted

abbrev pub with_edit : PostEdit → Db → Db
with_edit e d = with_edits (d.post_tables.post_edits ++ e ∷ []) d

abbrev pub with_content : ℕ → ℕ → String → ℕ → Db → Db
with_content post_id author_id content now d = record d {
  posts =
      update (is_editable post_id author_id)
        (λ p. record p { content = content; edited_at = some now }) d.posts;
}

-- One entry of the history is new, the last: what the post said, with the time of the edit. The live
-- post of the author has the new content and that time, it mentions exactly those whom the new content
-- names, and nothing else than the index of hashtags and mentions has changed.
pub record Edits (lower : String → String) (before : Db) (now : ℕ) (post : Post) (author_id : ℕ)
    (content : String) (d : Db) : Type 0 where
  pub there : any (is_editable post.id author_id) before.posts ≡ true
  pub changed :
      (e : PostEdit) × (e.post_id ≡ post.id)
      × (e.content_before ≡ post.content)
      × (e.edited_at ≡ now)
      × (without_index d
          ≡ without_index (with_content post.id author_id content now (with_edit e before)))
  pub mentions :
      (k : ℕ) → (is_mentioned d post.id k ≡ true) ↔ IsMentioned lower before.users content k

abbrev edit_row : World → ℕ → String → PostEdit
edit_row v post_id content = record {
  edit_id = v.sequence;
  post_id = post_id;
  content_before = content;
  edited_at = v.now;
}

create_edit_lem :
    (post_id : ℕ) (content : String) (v : World)
    → Succeeds
        (λ _ d. d ≡ with_edit (edit_row v post_id content) v.db)
        (create_edit post_id content v)
unfolding create_edit reach
create_edit_lem post_id content v = ground arith

now-create_edit :
    (post_id : ℕ) (content : String) (v : World) → (create_edit post_id content v).1.now ≡ v.now
unfolding create_edit reach
now-create_edit post_id content v = ground arith

any_found : (q : Post → Bool) (xs : List Post) (p : Post) → find q xs ≡ some p → any q xs ≡ true
any_found q [] p h = ground arith
any_found q (x ∷ xs) p h = ground (arith, any_found q xs p)

update_row_lem :
    (post_id author_id : ℕ) (content : String) (v : World)
    → Succeeds
        (λ _ d.
          (any (is_editable post_id author_id) v.db.posts ≡ true)
          × (d ≡ with_content post_id author_id content v.now v.db))
        (update_post_row post_id author_id content v)
unfolding update_post_row reach
update_row_lem post_id author_id content v =
    elim (Option-cases (find (is_editable post_id author_id) v.db.posts)) [
      | inl missing ↦ ground (arith, missing)
      | inr (p, found) ↦
          ground (arith, found, any_found (is_editable post_id author_id) v.db.posts p found)
    ]

Succeeds_of : {A : Type 0} (P : Db → Type 0) (r : Result A × World) → P r.1.db → Succeeds (λ _. P) r
Succeeds_of P (ok a, v) h = h
Succeeds_of P (err e, v) h = tt

Succeeds_both :
    {A : Type 0} (P Q : A → Db → Type 0) (r : Result A × World)
    → Succeeds P r
    → Succeeds Q r
    → Succeeds (λ a d. P a d × Q a d) r
Succeeds_both P Q (ok a, v) p q = (p, q)
Succeeds_both P Q (err e, v) p q = tt

require-Ends :
    {A : Type 0} (Q : A → Db → Type 0) (w : World) (r : Result (Unit {0})) (m : M A)
    → Ends w Q (m w)
    → Ends w Q ((require r >> m) w)
require-Ends Q w (ok u) m h = h
require-Ends Q w (err e) m h = refl

module _ (lower : String → String) where
  abbrev Synced : Db → ℕ → String → Db → Type 0
  Synced b post_id content d =
      (without_index d ≡ without_index b)
      × ((k : ℕ) → (is_mentioned d post_id k ≡ true) ↔ IsMentioned lower b.users content k)

  sync_lem :
      (post : Post) (content : String) (updated : Post) (x : World)
      → Succeeds
          (λ _. Synced x.db post.id content)
          ((do sync_hashtags post.id content; sync_mentions lower post.id content; pure updated) x)
  sync_lem post content updated x =
      Succeeds-bind _ _ (sync_hashtags post.id content x) _
        (Succeeds_of (λ d. without_index d ≡ without_index x.db) (sync_hashtags post.id content x)
          (sync_hashtags-Indexes post.id content x))
        λ _ y e.
          Succeeds-bind _ _ (sync_mentions lower post.id content y) _
            (Succeeds_both (λ _ d. without_index d ≡ without_index y.db) _
              (sync_mentions lower post.id content y)
              (Succeeds_of (λ d. without_index d ≡ without_index y.db)
                (sync_mentions lower post.id content y)
                (sync_mentions-Indexes lower post.id content y))
              (sync_mentions-Mentioned lower post.id content y))
            λ _ zw (same, (exact, _)).
              let z : Db = zw.db in
              (
                same ∙ e,
                λ k.
                    subst
                      (λ d. (is_mentioned z post.id k ≡ true) ↔ IsMentioned lower d.users content k)
                      e (exact k),
              )

  update_body-Edits :
      (now : ℕ) (post : Post) (actor : ℕ) (content : String) (v : World)
      → v.now ≡ now
      → Succeeds
          (λ _. Edits lower v.db now post actor content)
          (update_body lower post actor content v)
  unfolding update_body
  update_body-Edits now post actor content v at =
      bind_at _ _ now (create_edit post.id post.content v) _
        (now-create_edit post.id post.content v ∙ at) (create_edit_lem post.id post.content v)
        λ _ x at' e.
          Succeeds-bind _ _ (update_post_row post.id actor content x) _
            (update_row_lem post.id actor content x)
            λ updated y (there, f).
              Succeeds-map (λ _. Synced y.db post.id content)
                (λ _. Edits lower v.db now post actor content) _
                (λ _ d (same, exact). record {
                  there = subst (λ b. any (is_editable post.id actor) b.posts ≡ true) e there;
                  changed = (
                    edit_row v post.id post.content,
                    refl,
                    refl,
                    at,
                    same
                        ∙ ap without_index (
                            f
                            ∙ ap (λ t. with_content post.id actor content t x.db) at'
                            ∙ ap (with_content post.id actor content now) e),
                  );
                  mentions = λ k.
                      subst (λ b. (is_mentioned d post.id k ≡ true) ↔ IsMentioned lower b content k)
                        (ap Db.users f ∙ ap Db.users e) (exact k);
                })
                (sync_lem post content updated y)

  changes_lem :
      (w : World) (post : Post) (actor : ℕ) (content : String)
      → post.author_id ≡ actor
      → Ends w
          (λ _ d.
            (post.author_id ≡ actor)
            × (((content ≡ post.content) × (d ≡ w.db))
                ⊎ Edits lower w.db w.now post actor content d))
          ((if str_eq content post.content
              then pure post
              else transaction (update_body lower post actor content))
            w)
  changes_lem w post actor content own = elim (Bool-cases (str_eq content post.content)) [
    | inl same ↦ rw same (own, inl ((str_eq_iff content post.content).0 same, refl))
    | inr new ↦ rw new (
        Ends-map w (transaction (update_body lower post actor content) w) (λ _ d h. (own, inr h))
          (transaction_at (λ b _. Edits lower b w.now post actor content) w
            (update_body lower post actor content) (update_body-Edits w.now post actor content)))
  ]

  -- Editing a post, wherever the database fails: an error changes no table, and only the author
  -- succeeds. Where the content is the one that the request's post has, nothing changes; otherwise
  -- the old content is a new entry of the history, the last, with the time of the edit; the live post
  -- of the author has the new content and that time, it mentions exactly the users whose name the new
  -- content has behind an @ and who are not deleted, and nothing else than the index of hashtags and
  -- mentions has changed.
  pub update_post-Edits :
      (w : World) (post : Post) (actor : ℕ) (content : String)
      → Ends w
          (λ _ d.
            (post.author_id ≡ actor)
            × (((content ≡ post.content) × (d ≡ w.db))
                ⊎ Edits lower w.db w.now post actor content d))
          (update_post lower post actor content w)
  unfolding update_post
  update_post-Edits w post actor content =
      raise_if-Ends _ w (not (post.author_id == actor)) _ _ λ own.
        raise_if-Ends _ w (str_eq (trim_space content) "") _ _ λ given.
          require-Ends _ w (validate_content_length content) _
            (changes_lem w post actor content (ground (arith, own)))
