-- ===== src/Relationships/Block.antt =====
-- Which relationships there are after a call: blocks, follows, mutes and their removal.
use gaggle.Prelude.{
  ℕ, ◌≡◌, refl, inl, inr, Bool, true, false, ◌&&◌, String, List, [], some, arith, delete, any,
  any-append_one, any-delete_ne, any-delete_le, ◌∙◌, ◌==◌, str_eq, str_eq_iff, str_eq_refl,
  Bool-cases, find,
}
use gaggle.AppErrors.{err, forbidden_error, no_cause}
use gaggle.Database.{User, UserRelationship, Db, World, reach, transaction, Ends, Ends-map}
use gaggle.Accounts.{get_by_id}
use gaggle.Relationships.Store.{between, is_row, new_row, exists, create}
use gaggle.Relationships.Service.{follow_body, create_relationship, delete_relationship}
use gaggle.Relationships.Rows.{added, kept, block_rows, follow_rows, mute_rows, delete_rows}

-- `Exists` on given tables.
abbrev pub has : Db → ℕ → ℕ → String → Bool
has d f g type = any (is_row f g type) d.relationships

abbrev pub same_pair : ℕ → ℕ → ℕ → ℕ → Bool
same_pair a b f g = a == f && b == g

between_row :
    (f g : ℕ) (t : String) (r : UserRelationship) → is_row f g t r ≡ true → between f g r ≡ true
between_row f g t r h = ground arith

between_ne :
    (a b f g : ℕ) (t : String)
    → same_pair a b f g ≡ false
    → (r : UserRelationship) → is_row a b t r ≡ true
    → between f g r ≡ false
between_ne a b f g t n r h = ground arith

row_ne :
    (a b f g : ℕ) (t u : String)
    → (same_pair a b f g && str_eq u t) ≡ false
    → (r : UserRelationship) → is_row a b t r ≡ true
    → is_row f g u r ≡ false
row_ne a b f g t u n r h =
    ground
      (arith, str_eq_iff r.relationship_type u, str_eq_iff r.relationship_type t, str_eq_iff u t)

-- `f` blocks `g`, and that is all that there is between them.
pub record Blocks (w : World) (f g : ℕ) (d : Db) : Type 0 where
  pub here : (t : String) → has d f g t ≡ str_eq "block" t
  pub back : (t : String) → has d g f t ≡ false
  pub elsewhere :
      (a b : ℕ) (t : String)
      → same_pair a b f g ≡ false
      → same_pair a b g f ≡ false
      → has d a b t ≡ has w.db a b t
  pub same_users : d.users ≡ w.db.users

module _ (w : World) (f g : ℕ) (n : (f == g) ≡ false) where
  abbrev pub rest : List UserRelationship
  rest = delete (between f g) w.db.relationships

  abbrev pub cleared : List UserRelationship
  cleared = delete (between g f) rest

  pub cleared_here : (t : String) → any (is_row f g t) cleared ≡ false
  cleared_here t =
      any-delete_ne (is_row f g t) (between g f) (between_ne f g g f t (ground arith)) rest
      ∙ any-delete_le (is_row f g t) (between f g) (between_row f g t) w.db.relationships

  cleared_back : (t : String) → any (is_row g f t) cleared ≡ false
  cleared_back t = any-delete_le (is_row g f t) (between g f) (between_row g f t) rest

  cleared_elsewhere :
      (a b : ℕ) (t : String)
      → same_pair a b f g ≡ false
      → same_pair a b g f ≡ false
      → any (is_row a b t) cleared ≡ any (is_row a b t) w.db.relationships
  cleared_elsewhere a b t h k =
      any-delete_ne (is_row a b t) (between g f) (between_ne a b g f t k) rest
      ∙ any-delete_ne (is_row a b t) (between f g) (between_ne a b f g t h) w.db.relationships

  Becomes-Blocks :
      (d : Db) → d ≡ record w.db { relationships = added w cleared f g "block" } → Blocks w f g d
  Becomes-Blocks d e =
      let row : UserRelationship = new_row w.sequence f g "block" in
      rw e (record {
        here = λ t. rw (any-append_one (is_row f g t) cleared row) (ground (arith, cleared_here t));
        back = λ t. rw (any-append_one (is_row g f t) cleared row) (ground (arith, cleared_back t));
        elsewhere = λ a b t h k.
            rw (any-append_one (is_row a b t) cleared row)
              (ground (arith, cleared_elsewhere a b t h k));
        same_users = refl;
      })

-- A block, wherever the database fails, either returns an error and leaves every table as it was,
-- or leaves that one block as all that there is between the two users, in either direction, and
-- the relationships of every other pair as they were.
pub create_relationship-Blocks :
    (w : World) (f g : ℕ) → Ends w (λ _. Blocks w f g) (create_relationship f g "block" w)
create_relationship-Blocks w f g =
    Ends-map w (create_relationship f g "block" w) (λ _ d h. Becomes-Blocks w f g h.0 d h.1)
      (block_rows w f g)

-- The relationship is there, and no other relationship has come or gone.
pub record Gains (w : World) (f g : ℕ) (type : String) (d : Db) : Type 0 where
  pub here : has d f g type ≡ true
  pub elsewhere :
      (a b : ℕ) (t : String)
      → (same_pair a b f g && str_eq type t) ≡ false
      → has d a b t ≡ has w.db a b t
  pub same_users : d.users ≡ w.db.users

kept-Gains :
    (w : World) (f g : ℕ) (type : String) (d : Db)
    → d ≡ record w.db { relationships = kept w f g type }
    → Gains w f g type d
kept-Gains w f g type d e = elim (Bool-cases (has w.db f g type)) [
  | inl old ↦ rw (e, old) (record { here = old; elsewhere = λ a b t h. refl; same_users = refl })
  | inr new ↦
      let row : UserRelationship = new_row w.sequence f g type in
      rw (e, new)
        (record {
          here =
              rw (any-append_one (is_row f g type) w.db.relationships row)
                (ground (arith, str_eq_refl type));
          elsewhere = λ a b t h.
              rw (any-append_one (is_row a b t) w.db.relationships row)
                (ground (arith, str_eq_iff type t));
          same_users = refl;
        })
]

-- A follow either returns an error and leaves every table as it was, or leaves the follow there
-- and every other relationship as it was.
pub create_relationship-Gains_follow :
    (w : World) (f g : ℕ) → Ends w (λ _. Gains w f g "follow") (create_relationship f g "follow" w)
create_relationship-Gains_follow w f g =
    Ends-map w (create_relationship f g "follow" w) (λ _ d h. kept-Gains w f g "follow" d h.1)
      (follow_rows w f g)

-- So does a mute: it leaves a follow or a block of the same user alone.
pub create_relationship-Gains_mute :
    (w : World) (f g : ℕ) → Ends w (λ _. Gains w f g "mute") (create_relationship f g "mute" w)
create_relationship-Gains_mute w f g =
    Ends-map w (create_relationship f g "mute" w) (λ _ d h. kept-Gains w f g "mute" d h.1)
      (mute_rows w f g)

-- Nobody can follow a user who blocks them: whatever the database does, the call returns an error
-- and leaves every table as it was.
pub follow_blocked :
    (w : World) (f g : ℕ)
    → has w.db g f "block" ≡ true
    → Ends w (λ _ _. ⊥) (create_relationship f g "follow" w)
unfolding create_relationship follow_body exists create get_by_id reach transaction
follow_blocked w f g h = ground arith

-- Where the database works and the target is another user that is not deleted, following a user who
-- blocks the caller is answered by FORBIDDEN.
pub follow_forbidden :
    (w : World) (f g : ℕ) (u : User)
    → has w.db g f "block" ≡ true
    → find (λ x. x.id == g) w.db.users ≡ some u
    → u.soft_deleted ≡ false
    → (f == g) ≡ false
    → w.faults ≡ []
    → (create_relationship f g "follow" w).0
      ≡ err (forbidden_error "cannot follow this user" no_cause)
unfolding create_relationship follow_body exists create get_by_id reach transaction
follow_forbidden w f g u h there alive other works = ground arith

-- What is left after a relationship is removed.
pub record Loses (w : World) (f g : ℕ) (type : String) (d : Db) : Type 0 where
  pub here : has d f g type ≡ false
  pub elsewhere :
      (a b : ℕ) (t : String)
      → (same_pair a b f g && str_eq type t) ≡ false
      → has d a b t ≡ has w.db a b t
  pub same_users : d.users ≡ w.db.users

row_self :
    (f g : ℕ) (t : String) (r : UserRelationship) → is_row f g t r ≡ true → is_row f g t r ≡ true
row_self f g t r h = h

delete-Loses :
    (w : World) (f g : ℕ) (type : String) (d : Db)
    → d ≡ record w.db { relationships = delete (is_row f g type) w.db.relationships }
    → Loses w f g type d
delete-Loses w f g type d e = rw e (record {
  here = any-delete_le (is_row f g type) (is_row f g type) (row_self f g type) w.db.relationships;
  elsewhere = λ a b t h.
      any-delete_ne (is_row a b t) (is_row f g type) (row_ne a b f g t type h) w.db.relationships;
  same_users = refl;
})

-- Removing a follow, block or mute either returns an error and leaves every table as it was, or
-- removes that relationship and leaves every other one as it was.
pub delete_relationship-Loses :
    (w : World) (f g : ℕ) (type : String)
    → Ends w (λ _. Loses w f g type) (delete_relationship f g type w)
delete_relationship-Loses w f g type =
    Ends-map w (delete_relationship f g type w) (λ _ d h. delete-Loses w f g type d h)
      (delete_rows w f g type)
