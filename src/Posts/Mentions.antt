-- ===== src/Posts/Mentions.antt =====
-- What a post's audience is after it was resolved.
use gaggle.Prelude.{
  ℕ, ◌≡◌, refl, ◌∙◌, ◌↔◌, ◌⊎◌, inl, inr, true, false, String, List, [], ◌++◌, some, arith, ◌==◌,
  str_eq, str_eq_iff, ap, Bool-cases, find, any, length,
}
use gaggle.Database.{
  User, Post, Db, World, Ends, Ends-bind, Ends-db, Ends-map, raise_if-Ends, ◌>>=◌,
}
use gaggle.Posts.Names.{
  NamesBehind, names_one_sound, names_one_complete, find_mentions_sound, find_mentions_complete,
}
use gaggle.Posts.Visibility.{visibility_public}
use gaggle.AppErrors.{Result, ok, err}
use gaggle.Posts.Audience.{is_audience, Adds, lookup_name, resolve_names_lem, resolve_names-Adds}
use gaggle.Posts.Validation.{
  require_mention, resolve_names, resolve_visibility_and_mentions, resolve_defaulted, find_mentions,
}

abbrev with_visibility : String → Post → Post
with_visibility visibility post = record post { visibility = visibility }

-- The post is for the mentioned, and its content has the user's name behind an @.
pub record IsNamed (lower : String → String) (d : Db) (post post' : Post) (k : ℕ) : Type 0 where
  pub for_the_mentioned : post'.visibility ≡ "mentions"
  pub other : (k == post.author_id) ≡ false
  pub name : String
  pub behind : NamesBehind post.content name
  pub user : User
  pub found : find (λ u. str_eq (lower u.username) (lower name)) d.users ≡ some user
  pub same : user.id ≡ k

module _ (lower : String → String) where
  -- A resolved post: it keeps the visibility that was asked for, public where none was, and that is
  -- one of the three. The audience are users who exist, each once, without the author; somebody is in
  -- it exactly where the post is for the mentioned and its content has their name behind an @, and a
  -- post for the mentioned has an audience. Nothing else in the post has changed.
  pub record Resolved (d : Db) (post post' : Post) : Type 0 where
    pub asked :
        ((post.visibility ≡ "") × (post'.visibility ≡ "public"))
        ⊎ (post'.visibility ≡ post.visibility)
    pub known :
        (post'.visibility ≡ "public")
        ⊎ (post'.visibility ≡ "followers")
        ⊎ ((post'.visibility ≡ "mentions") × ((length post'.mentioned_user_ids == 0) ≡ false))
    pub audience : is_audience d post.author_id post'.mentioned_user_ids ≡ true
    pub named :
        (k : ℕ)
        → (any (λ id. id == k) post'.mentioned_user_ids ≡ true) ↔ IsNamed lower d post post' k
    pub rest :
        record post' { visibility = post.visibility; mentioned_user_ids = post.mentioned_user_ids }
        ≡ post

  named_lem :
      (d : Db) (post post' : Post) (k : ℕ)
      → post'.visibility ≡ "mentions"
      → Adds lower d post.author_id [] (find_mentions post.content) k post'.mentioned_user_ids
      → (any (λ id. id == k) post'.mentioned_user_ids ≡ true) ↔ IsNamed lower d post post' k
  named_lem d post post' k for_them adds = (
    λ inside.
        let (name, mentioned, user, found, same) =
          names_one_sound (lookup_name lower d) k (find_mentions post.content)
            (ground (arith, adds, inside)) in
        record {
          for_the_mentioned = for_them;
          other = ground (arith, adds, inside);
          name = name;
          behind = find_mentions_sound post.content name mentioned;
          user = user;
          found = found;
          same = same;
        },
    λ i. ground (
      arith,
      adds,
      i.other,
      names_one_complete (lookup_name lower d) k (find_mentions post.content) i.name i.user
          (find_mentions_complete post.content i.name i.behind) i.found i.same,
    ),
  )

  -- A post that is for no particular user.
  unnamed_lem :
      (d : Db) (post : Post)
      → post.mentioned_user_ids ≡ []
      → str_eq post.visibility "mentions" ≡ false
      → (post.visibility ≡ "public") ⊎ (post.visibility ≡ "followers")
      → Resolved d post post
  unnamed_lem d post empty h known = record {
    asked = inr refl;
    known = elim known [ inl e ↦ inl e | inr e ↦ inr (inl e) ];
    audience = rw empty refl;
    named = λ k. (
      λ inside. ground (arith, empty, inside),
      λ i. ground (arith, h, (str_eq_iff post.visibility "mentions").1 i.for_the_mentioned),
    );
    rest = refl;
  }

  for_each :
      {A : Type 0} (P : ℕ → A → Db → Type 0) (w : World) (r : Result A × World)
      → ((k : ℕ) → Ends w (P k) r)
      → Ends w (λ a d. (k : ℕ) → P k a d) r
  for_each P w (ok a, v) h = h
  for_each P w (err e, v) h = h 0

  both :
      {A : Type 0} (P Q : A → Db → Type 0) (w : World) (r : Result A × World)
      → Ends w P r
      → Ends w Q r
      → Ends w (λ a d. P a d × Q a d) r
  both P Q w (ok a, v) p q = (p, q)
  both P Q w (err e, v) p q = p

  for_the_mentioned_lem :
      (w : World) (post : Post)
      → post.mentioned_user_ids ≡ []
      → post.visibility ≡ "mentions"
      → Ends w
          (λ post' d. Resolved w.db post post' × (d ≡ w.db))
          ((do
            ids ← resolve_names lower post.author_id [] (find_mentions post.content)
            require_mention lower
                (record post { mentioned_user_ids = post.mentioned_user_ids ++ ids }))
            w)
  for_the_mentioned_lem w post empty e =
      let r : Result (List ℕ) × World =
        resolve_names lower post.author_id [] (find_mentions post.content) w in
      Ends-bind _ _ w r
        (λ ids.
          require_mention lower
            (record post { mentioned_user_ids = post.mentioned_user_ids ++ ids }))
        (both _ _ w r
          (resolve_names_lem lower w w post.author_id [] (find_mentions post.content) refl refl)
          (for_each _ w r λ k.
            resolve_names-Adds lower w w post.author_id k [] (find_mentions post.content) refl))
        λ ids v ((audience, same), adds).
          let Q : Post → Db → Type 0 = λ post' d. Resolved w.db post post' × (d ≡ w.db) in
          Ends-db Q w v _ same (
            raise_if-Ends Q v (length (post.mentioned_user_ids ++ ids) == 0) _ _ λ some_one. (
              record {
                asked = inr refl;
                known = inr (inr (e, some_one));
                audience = rw empty audience;
                named = λ k.
                    named_lem w.db post
                      (record post { mentioned_user_ids = post.mentioned_user_ids ++ ids }) k e
                      (ap (λ xs. any (λ id. id == k) (xs ++ ids)) empty ∙ (adds k).0);
                rest = refl;
              },
              same,
            ))

  blank_lem :
      (d : Db) (post post' : Post)
      → post.visibility ≡ ""
      → Resolved d (record post { visibility = visibility_public }) post'
      → Resolved d post post'
  blank_lem d post post' blank h = record {
    asked = inl (blank, elim h.asked [ inl (_, e) ↦ e | inr e ↦ e ]);
    known = h.known;
    audience = h.audience;
    named = λ k. (
      λ inside.
          let i = (h.named k).0 inside in
          record {
            for_the_mentioned = i.for_the_mentioned;
            other = i.other;
            name = i.name;
            behind = i.behind;
            user = i.user;
            found = i.found;
            same = i.same;
          },
      λ i. (h.named k).1 (record {
        for_the_mentioned = i.for_the_mentioned;
        other = i.other;
        name = i.name;
        behind = i.behind;
        user = i.user;
        found = i.found;
        same = i.same;
      }),
    );
    rest = ap (with_visibility post.visibility) h.rest;
  }

  resolve_defaulted_lem :
      (w : World) (post : Post)
      → post.mentioned_user_ids ≡ []
      → Ends w (λ post' d. Resolved w.db post post' × (d ≡ w.db)) (resolve_defaulted lower post w)
  unfolding resolve_defaulted
  resolve_defaulted_lem w post empty = elim (Bool-cases (str_eq post.visibility "public")) [
    | inl e ↦ rw e (
      unnamed_lem w.db post empty
          (ap (λ s. str_eq s "mentions") ((str_eq_iff post.visibility "public").0 e))
          (inl ((str_eq_iff post.visibility "public").0 e)),
      refl,
    )
    | inr e ↦ elim (Bool-cases (str_eq post.visibility "followers")) [
      | inl f ↦
          rw (e, f)
            (
              unnamed_lem w.db post empty
                  (ap (λ s. str_eq s "mentions") ((str_eq_iff post.visibility "followers").0 f))
                  (inr ((str_eq_iff post.visibility "followers").0 f)),
              refl,
            )
      | inr f ↦ elim (Bool-cases (str_eq post.visibility "mentions")) [
        | inl g ↦
            rw (e, f, g)
              (for_the_mentioned_lem w post empty ((str_eq_iff post.visibility "mentions").0 g))
        | inr g ↦ rw (e, f, g) refl
      ]
    ]
  ]

  -- Resolving a post that comes without an audience, wherever the database fails: an error changes
  -- no table, and on success no table has changed and the post is resolved: its visibility is the one
  -- that was asked for, public where none was, and it is public, followers or mentions. Somebody is in
  -- its audience exactly where it is for the mentioned, they are not its author, and its content has
  -- an @ with a whole run of 3 to 16 letters, digits and _ behind it that finds them by name; each is
  -- there once, and a post for the mentioned has an audience. Nothing else in the post has changed.
  pub resolve_visibility_and_mentions-Ends :
      (w : World) (post : Post)
      → post.mentioned_user_ids ≡ []
      → Ends w
          (λ post' d. Resolved w.db post post' × (d ≡ w.db))
          (resolve_visibility_and_mentions lower post w)
  unfolding resolve_visibility_and_mentions
  resolve_visibility_and_mentions-Ends w post empty =
      elim (Bool-cases (str_eq post.visibility "")) [
        | inl blank ↦ rw blank (
            Ends-map w (resolve_defaulted lower (record post { visibility = visibility_public }) w)
              (λ post' d h.
                (blank_lem w.db post post' ((str_eq_iff post.visibility "").0 blank) h.0, h.1))
              (resolve_defaulted_lem w (record post { visibility = visibility_public }) empty))
        | inr given ↦ rw given (resolve_defaulted_lem w post empty)
      ]
