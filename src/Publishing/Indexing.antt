-- ===== src/Publishing/Indexing.antt =====
-- The mentions and the hashtags of a post after they were synchronized.
use gaggle.Prelude.{
  true, ◌↔◌, ap, ℕ, ◌≡◌, refl, sym, ◌∙◌, inl, inr, Bool, false, ◌&&◌, ◌||◌, String, List, [], ◌∷◌,
  ◌++◌, Option, none, some, arith, ◌==◌, if◌then◌else◌, Bool-cases, find, any, delete,
  any-append_one, any-delete_ne, any-delete_le,
}
use gaggle.AppErrors.{Result, ok, err}
use gaggle.Database.{
  User, PostMention, Db, World, M, reach, continue, Succeeds, Succeeds-bind, Succeeds-map, query,
  ◌>>=◌,
}
use mathlib.Core.Path.{subst}
use gaggle.Publishing.Names.{IsMentioned, names_user, names_user_iff}
use gaggle.Publishing.Tags.{extract_hashtags, extract_mentions}
use gaggle.Publishing.Indexes.{
  upsert_hashtag, link_hashtag, sync_names, clear_hashtags, sync_hashtags, mentions, link_mention,
  link_found, clear_mentions, is_named, sync_users, sync_mentions,
}

-- The tables without the index of hashtags and mentions.
abbrev pub without_index : Db → Db
without_index d = record d {
  post_tables = record d.post_tables { hashtags = []; post_hashtags = []; post_mentions = [] };
}

-- A call that changes nothing but the index.
abbrev Indexes : {A : Type 0} → M A → Type 0
Indexes m = (w : World) → without_index (m w).1.db ≡ without_index w.db

continue-Indexes :
    {A B : Type 0} (r : Result A) (f : A → M B) (v : World) (d : Db)
    → without_index v.db ≡ d
    → ((a : A) → Indexes (f a))
    → without_index (continue r f v).1.db ≡ d
continue-Indexes (ok a) f v d e k = k a v ∙ e
continue-Indexes (err x) f v d e k = e

bind-Indexes :
    {A B : Type 0} (m : M A) (f : A → M B)
    → Indexes m
    → ((a : A) → Indexes (f a))
    → Indexes (m >>= f)
bind-Indexes m f h k w = continue-Indexes (m w).0 f (m w).1 (without_index w.db) (h w) k

upsert-Indexes : (name : String) → Indexes (upsert_hashtag name)
unfolding upsert_hashtag reach
upsert-Indexes name w = ground arith

link-Indexes : (post_id hashtag_id : ℕ) → Indexes (link_hashtag post_id hashtag_id)
unfolding link_hashtag reach
link-Indexes post_id hashtag_id w = ground arith

names-Indexes : (post_id : ℕ) (names : List String) → Indexes (sync_names post_id names)
unfolding sync_names
names-Indexes post_id [] = λ w. refl
names-Indexes post_id (name ∷ names) =
    bind-Indexes (upsert_hashtag name) _ (upsert-Indexes name) λ id.
      bind-Indexes (link_hashtag post_id id) _ (link-Indexes post_id id)
        λ _. names-Indexes post_id names

clear-Indexes : (post_id : ℕ) → Indexes (clear_hashtags post_id)
unfolding clear_hashtags reach
clear-Indexes post_id w = ground arith

pub sync_hashtags-Indexes :
    (post_id : ℕ) (content : String) (w : World)
    → without_index (sync_hashtags post_id content w).1.db ≡ without_index w.db
unfolding sync_hashtags
sync_hashtags-Indexes post_id content =
    bind-Indexes (clear_hashtags post_id) _ (clear-Indexes post_id)
      λ _. names-Indexes post_id (extract_hashtags content)

link_found-Indexes : (post_id : ℕ) (u : Option User) → Indexes (link_found post_id u)
unfolding link_mention reach
link_found-Indexes post_id none = λ w. refl
link_found-Indexes post_id (some u) = λ w. ground arith

clear_mentions-Indexes : (post_id : ℕ) → Indexes (clear_mentions post_id)
unfolding clear_mentions reach
clear_mentions-Indexes post_id w = ground arith

find-Indexes : {A : Type 0} (f : Db → A) → Indexes (query f)
unfolding reach
find-Indexes f w = ground arith

module _ (lower : String → String) where
  users-Indexes : (post_id : ℕ) (names : List String) → Indexes (sync_users lower post_id names)
  unfolding sync_users
  users-Indexes post_id [] = λ w. refl
  users-Indexes post_id (name ∷ names) = bind-Indexes (query _) _ (find-Indexes _) λ u.
      bind-Indexes (link_found post_id u) _ (link_found-Indexes post_id u)
        λ _. users-Indexes post_id names

  pub sync_mentions-Indexes :
      (post_id : ℕ) (content : String) (w : World)
      → without_index (sync_mentions lower post_id content w).1.db ≡ without_index w.db
  unfolding sync_mentions
  sync_mentions-Indexes post_id content =
      bind-Indexes (clear_mentions post_id) _ (clear_mentions-Indexes post_id)
        λ _. users-Indexes post_id (extract_mentions content)

abbrev pub is_mentioned : Db → ℕ → ℕ → Bool
is_mentioned d post_id user_id = any (mentions post_id user_id) d.post_tables.post_mentions

-- The post mentions the users of `f` besides those from before.
record Mentions (before : Db) (post_id : ℕ) (f : ℕ → Bool) (d : Db) : Type 0 where
  users : d.users ≡ before.users
  rows : (p k : ℕ) → is_mentioned d p k ≡ (is_mentioned before p k || (p == post_id && f k))

Mentions-trans :
    (b m d : Db) (post_id : ℕ) (f g : ℕ → Bool)
    → Mentions b post_id f m
    → Mentions m post_id g d
    → Mentions b post_id (λ k. f k || g k) d
Mentions-trans b m d post_id f g h k = record {
  users = k.users ∙ h.users;
  rows = λ p u. ground (arith, h.rows p u, k.rows p u);
}

abbrev is_user : Option User → ℕ → Bool
is_user o k = elim o [ none ↦ false | some u ↦ u.id == k ]

abbrev with_mention : ℕ → ℕ → Db → Db
with_mention post_id user_id d = record d {
  post_tables = record d.post_tables {
    post_mentions =
        if is_mentioned d post_id user_id
        then d.post_tables.post_mentions
        else d.post_tables.post_mentions ++ record { post_id = post_id; user_id = user_id } ∷ [];
  };
}

link_mention_lem :
    (post_id user_id : ℕ) (v : World)
    → Succeeds (λ _ d. d ≡ with_mention post_id user_id v.db) (link_mention post_id user_id v)
unfolding link_mention reach
link_mention_lem post_id user_id v = ground arith

mentioned-add :
    (ms : List PostMention) (post_id user_id p k : ℕ)
    → any (mentions p k) (
        if any (mentions post_id user_id) ms
        then ms
        else ms ++ record { post_id = post_id; user_id = user_id } ∷ [])
      ≡ (any (mentions p k) ms || (p == post_id && user_id == k))
mentioned-add ms post_id user_id p k = elim (Bool-cases (p == post_id && user_id == k)) [
  | inl this ↦
      let same_post : p ≡ post_id = ground (arith, this) in
      let same_user : user_id ≡ k = ground (arith, this) in
      rw (same_post, sym same_user)
        (ground (
          arith,
          any-append_one (mentions post_id user_id) ms
              (record { post_id = post_id; user_id = user_id }),
        ))
  | inr other ↦
      ground
        (arith, any-append_one (mentions p k) ms (record { post_id = post_id; user_id = user_id }))
]

link_found-Mentions :
    (post_id : ℕ) (o : Option User) (v : World)
    → Succeeds (λ _. Mentions v.db post_id (is_user o)) (link_found post_id o v)
link_found-Mentions post_id none v = record { users = refl; rows = λ p k. ground arith }
link_found-Mentions post_id (some u) v =
    Succeeds-map _ _ (link_mention post_id u.id v)
      (λ _ d e. rw e (record {
        users = refl;
        rows = λ p k. mentioned-add v.db.post_tables.post_mentions post_id u.id p k;
      }))
      (link_mention_lem post_id u.id v)

find_lem :
    {A : Type 0} (f : Db → A) (v : World) → Succeeds (λ a d. (a ≡ f v.db) × (d ≡ v.db)) (query f v)
unfolding reach
find_lem f v = ground arith

clear_db : ℕ → Db → Db
clear_db post_id d = record d {
  post_tables = record d.post_tables {
    post_mentions = delete (λ m. m.post_id == post_id) d.post_tables.post_mentions;
  };
}

cleared :
    (post_id : ℕ) (v : World)
    → Succeeds (λ _ d. d ≡ clear_db post_id v.db) (clear_mentions post_id v)
unfolding clear_mentions clear_db reach
cleared post_id v = ground arith

module _ (lower : String → String) where
  names_lem :
      (post_id : ℕ) (names : List String) (v : World)
      → Succeeds
          (λ _. Mentions v.db post_id (λ k. names_user lower v.db.users k names))
          (sync_users lower post_id names v)
  unfolding sync_users
  names_lem post_id [] v = record { users = refl; rows = λ p k. ground arith }
  names_lem post_id (name ∷ names) v =
      Succeeds-bind _ _ (query (λ d. find (is_named lower name) d.users) v) _
        (find_lem (λ d. find (is_named lower name) d.users) v)
        λ o x (e, same).
          Succeeds-bind _ _ (link_found post_id o x) _ (link_found-Mentions post_id o x)
            λ _ y first.
              Succeeds-map _ _ (sync_users lower post_id names y)
                (λ _ d rest. record {
                  users = rest.users ∙ first.users ∙ ap Db.users same;
                  rows = λ p k. ground (
                    arith,
                    rest.rows p k,
                    first.rows p k,
                    ap (λ b. is_mentioned b p k) same,
                    ap (λ us. names_user lower us k names) (first.users ∙ ap Db.users same),
                    ap (λ u. is_user u k) e,
                  );
                })
                (names_lem post_id names y)

  sync_mentions_lem :
      (post_id : ℕ) (content : String) (w : World)
      → Succeeds
          (λ _ d.
            ((k : ℕ)
              → is_mentioned d post_id k ≡ names_user lower w.db.users k (extract_mentions content))
            × ((p k : ℕ) → (p == post_id) ≡ false → is_mentioned d p k ≡ is_mentioned w.db p k))
          (sync_mentions lower post_id content w)
  unfolding sync_mentions clear_db
  sync_mentions_lem post_id content w =
      Succeeds-bind _ _ (clear_mentions post_id w) _ (cleared post_id w) λ _ x e.
        Succeeds-map _ _ (sync_users lower post_id (extract_mentions content) x)
          (λ _ d rest. (
            λ k. ground (
              arith,
              rest.rows post_id k,
              ap (λ b. is_mentioned b post_id k) e,
              ap (λ b. names_user lower b.users k (extract_mentions content)) e,
              any-delete_le (mentions post_id k) (λ m. m.post_id == post_id) (λ m h. ground arith)
                  w.db.post_tables.post_mentions,
            ),
            λ p k other. ground (
              arith,
              rest.rows p k,
              ap (λ b. is_mentioned b p k) e,
              any-delete_ne (mentions p k) (λ m. m.post_id == post_id) (λ m h. ground arith)
                  w.db.post_tables.post_mentions,
            ),
          ))
          (names_lem post_id (extract_mentions content) x)

  -- Synchronizing the mentions of a post: after a success the post mentions exactly the users who
  -- are not deleted and whose name the content has: an @ at its start or behind a character that is
  -- no letter, digit or _, and behind the @ a whole run of those, or the first 16 of a longer one,
  -- that finds the user in any case. What other posts mention is as it was.
  pub sync_mentions-Mentioned :
      (post_id : ℕ) (content : String) (w : World)
      → Succeeds
          (λ _ d.
            ((k : ℕ) → (is_mentioned d post_id k ≡ true) ↔ IsMentioned lower w.db.users content k)
            × ((p k : ℕ) → (p == post_id) ≡ false → is_mentioned d p k ≡ is_mentioned w.db p k))
          (sync_mentions lower post_id content w)
  sync_mentions-Mentioned post_id content w =
      Succeeds-map _ _ (sync_mentions lower post_id content w)
        (λ _ d (exact, others). (
          λ k.
              subst (λ b. (b ≡ true) ↔ IsMentioned lower w.db.users content k) (sym (exact k))
                (names_user_iff lower w.db.users k content),
          others,
        ))
        (sync_mentions_lem post_id content w)
