-- ===== src/Posts/Audience.antt =====
-- Who is in an audience after the loop over the names, and that resolving leaves the clock alone.
use gaggle.Prelude.{
  ℕ, ◌≡◌, refl, ◌||◌, Option, inl, inr, Bool, true, false, not, ◌&&◌, String, List, [], ◌∷◌, ◌++◌,
  some, arith, ◌==◌, str_eq, ap, Bool-cases, Option-cases, find, any, any-append_one,
}
use mathlib.Core.Path.{subst}
use gaggle.Database.{
  StandsStill, bind_still, User, Post, Db, World, reach, Ends, Ends-bind, Ends-db, Ends-map,
}
use gaggle.Accounts.{get_by_username}
use gaggle.Posts.Names.{names_one}
use gaggle.Posts.Visibility.{visibility_followers, visibility_mentions, visibility_public}
use gaggle.AppErrors.{ok}
use gaggle.Posts.Validation.{
  with_default, require_mention, add_mention, resolve_name, resolve_names,
  resolve_visibility_and_mentions, resolve_defaulted, find_mentions,
}

abbrev pub every {ℓ} : {A : Type ℓ} → (A → Bool) → List A → Bool
every p [] = true
every p (x ∷ xs) = p x && every p xs

-- No id stands twice.
abbrev pub distinct : List ℕ → Bool
distinct [] = true
distinct (x ∷ xs) = not (any (λ y. y == x) xs) && distinct xs

every-append_one :
    (p : ℕ → Bool) (xs : List ℕ) (x : ℕ) → every p (xs ++ x ∷ []) ≡ (every p xs && p x)
every-append_one p [] x = ground arith
every-append_one p (y ∷ xs) x = ground (arith, every-append_one p xs x)

distinct-append_one :
    (xs : List ℕ) (x : ℕ) → distinct (xs ++ x ∷ []) ≡ (distinct xs && not (any (λ y. y == x) xs))
distinct-append_one [] x = ground arith
distinct-append_one (y ∷ xs) x =
    ground (arith, distinct-append_one xs x, any-append_one (λ z. z == y) xs x)

found_user :
    (q : User → Bool) (users : List User) (u : User)
    → find q users ≡ some u
    → any (λ v. v.id == u.id) users ≡ true
found_user q [] u e = ground arith
found_user q (v ∷ users) u e = ground (arith, found_user q users u)

-- Users who exist, each once, and not the author.
abbrev pub is_audience : Db → ℕ → List ℕ → Bool
is_audience d author ids =
    every (λ id. any (λ u. u.id == id) d.users) ids
    && distinct ids
    && not (any (λ id. id == author) ids)

audience-append_one :
    (d : Db) (author : ℕ) (ids : List ℕ) (u : User)
    → is_audience d author ids ≡ true
    → any (λ v. v.id == u.id) d.users ≡ true
    → (u.id == author) ≡ false
    → any (λ id. id == u.id) ids ≡ false
    → is_audience d author (ids ++ u.id ∷ []) ≡ true
audience-append_one d author ids u h known other new = ground (
  arith,
  every-append_one (λ id. any (λ v. v.id == id) d.users) ids u.id,
  distinct-append_one ids u.id,
  any-append_one (λ id. id == author) ids u.id,
)

module _ (lower : String → String) where
  pub resolve_name_lem :
      (w : World) (author : ℕ) (seen : List ℕ) (name : String)
      → is_audience w.db author seen ≡ true
      → Ends w
          (λ ids d. (is_audience w.db author ids ≡ true) × (d ≡ w.db))
          (resolve_name lower author seen name w)
  unfolding get_by_username reach
  resolve_name_lem w author seen name h =
      elim (Option-cases (find (λ u. str_eq (lower u.username) (lower name)) w.db.users)) [
        | inl missing ↦ ground arith
        | inr (u, found) ↦ ground (
          arith,
          found,
          audience-append_one w.db author seen u h
              (found_user (λ v. str_eq (lower v.username) (lower name)) w.db.users u found),
        )
      ]

  pub resolve_names_lem :
      (w v : World) (author : ℕ) (seen : List ℕ) (names : List String)
      → v.db ≡ w.db
      → is_audience w.db author seen ≡ true
      → Ends w
          (λ ids d. (is_audience w.db author ids ≡ true) × (d ≡ w.db))
          (resolve_names lower author seen names v)
  unfolding resolve_names
  resolve_names_lem w v author seen [] p h = (h, p)
  resolve_names_lem w v author seen (name ∷ names) p h =
      Ends-bind _ _ w (resolve_name lower author seen name v)
        (λ seen'. resolve_names lower author seen' names)
        (Ends-db _ w v (resolve_name lower author seen name v) p (
          subst
            (λ b.
              Ends v (λ ids d. (is_audience b author ids ≡ true) × (d ≡ b))
                (resolve_name lower author seen name v))
            p (resolve_name_lem v author seen name (rw p h))))
        (λ ids x q. resolve_names_lem w x author ids names q.1 q.0)

  abbrev pub lookup_name : Db → String → Option User
  lookup_name d name = find (λ u. str_eq (lower u.username) (lower name)) d.users

  -- Somebody is among the ids who was before or whom the names add.
  abbrev pub Adds : Db → ℕ → List ℕ → List String → ℕ → List ℕ → Type 0
  Adds d author seen names k ids =
      any (λ id. id == k) ids
      ≡ (any (λ id. id == k) seen || (not (k == author) && names_one (lookup_name d) k names))

  add_lem :
      (author k : ℕ) (seen : List ℕ) (u : User) (v : World)
      → Ends v
          (λ ids d.
            (any (λ id. id == k) ids
              ≡ (any (λ id. id == k) seen || (not (k == author) && u.id == k)))
            × (d ≡ v.db))
          (add_mention author seen (ok u), v)
  add_lem author k seen u v = elim (Bool-cases (u.id == k)) [
    | inl this ↦
        let same : u.id ≡ k = ground (arith, this) in
        ground
          (arith, ap (λ i. any (λ id. id == i) seen) same, any-append_one (λ id. id == k) seen u.id)
    | inr other ↦ ground (arith, other, any-append_one (λ id. id == k) seen u.id)
  ]

  pub resolve_name-Adds :
      (w : World) (author k : ℕ) (seen : List ℕ) (name : String)
      → Ends w
          (λ ids d. Adds w.db author seen (name ∷ []) k ids × (d ≡ w.db))
          (resolve_name lower author seen name w)
  unfolding get_by_username reach
  resolve_name-Adds w author k seen name =
      elim (Option-cases (find (λ u. str_eq (lower u.username) (lower name)) w.db.users)) [
        | inl missing ↦ ground (arith, missing)
        | inr (u, found) ↦ ground (arith, found, add_lem author k seen u w)
      ]

  pub resolve_names-Adds :
      (w v : World) (author k : ℕ) (seen : List ℕ) (names : List String)
      → v.db ≡ w.db
      → Ends w
          (λ ids d. Adds w.db author seen names k ids × (d ≡ w.db))
          (resolve_names lower author seen names v)
  unfolding resolve_names
  resolve_names-Adds w v author k seen [] p = (ground arith, p)
  resolve_names-Adds w v author k seen (name ∷ names) p =
      Ends-bind _ _ w (resolve_name lower author seen name v)
        (λ seen'. resolve_names lower author seen' names)
        (Ends-db _ w v (resolve_name lower author seen name v) p (
          subst
            (λ b.
              Ends v (λ ids d. Adds b author seen (name ∷ []) k ids × (d ≡ b))
                (resolve_name lower author seen name v))
            p (resolve_name-Adds v author k seen name)))
        (λ ids x q.
          Ends-map w (resolve_names lower author ids names x)
            (λ ids' d h. (ground (arith, h.0, q.0), h.1))
            (resolve_names-Adds w x author k ids names q.1))

  now-resolve_name :
      (author : ℕ) (seen : List ℕ) (name : String)
      → StandsStill (resolve_name lower author seen name)
  unfolding get_by_username reach
  now-resolve_name author seen name w = ground arith

  now-resolve_names :
      (author : ℕ) (seen : List ℕ) (names : List String)
      → StandsStill (resolve_names lower author seen names)
  unfolding resolve_names
  now-resolve_names author seen [] = λ w. refl
  now-resolve_names author seen (name ∷ names) =
      bind_still (resolve_name lower author seen name) _ (now-resolve_name author seen name)
        λ ids. now-resolve_names author ids names

  now-require_mention : (post : Post) → StandsStill (require_mention lower post)
  now-require_mention post w = ground arith

  now-resolve_defaulted : (post : Post) → StandsStill (resolve_defaulted lower post)
  unfolding resolve_defaulted
  now-resolve_defaulted post w =
      elim (Bool-cases
        (str_eq post.visibility visibility_public || str_eq post.visibility visibility_followers)) [
          | inl e ↦ rw e refl
          | inr e ↦ elim (Bool-cases (str_eq post.visibility visibility_mentions)) [
            | inl f ↦
                rw (e, f)
                  (bind_still (resolve_names lower post.author_id [] (find_mentions post.content))
                    (λ ids.
                      require_mention lower
                        (record post { mentioned_user_ids = post.mentioned_user_ids ++ ids }))
                    (now-resolve_names post.author_id [] (find_mentions post.content))
                    (λ ids.
                      now-require_mention
                        (record post { mentioned_user_ids = post.mentioned_user_ids ++ ids }))
                    w)
            | inr f ↦ rw (e, f) refl
          ]
        ]

  -- Resolving a post leaves the clock alone.
  pub now-resolve_visibility_and_mentions :
      (post : Post) → StandsStill (resolve_visibility_and_mentions lower post)
  unfolding resolve_visibility_and_mentions
  now-resolve_visibility_and_mentions post = now-resolve_defaulted (with_default lower post)
