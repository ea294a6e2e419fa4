-- ===== src/Relationships/Rows.antt =====
-- What each call of the service writes, on every branch and wherever the database fails.
use gaggle.Prelude.{
  ℕ, ◌≡◌, false, String, List, [], Option, ◌∷◌, ◌++◌, arith, delete, any, if◌then◌else◌, ◌==◌,
}
use gaggle.AppErrors.{Result, ok, err}
use gaggle.Database.{UserRelationship, Db, World, reach, transaction, Ends}
use gaggle.Accounts.{get_by_id}
use gaggle.Relationships.Store.{
  between, is_row, is_type, new_row, create, delete_between, delete_by_type, exists,
}
use gaggle.Relationships.Service.{
  allow_missing, block_body, follow_body, mute_body, create_relationship, delete_relationship,
}

abbrev pub added : World → List UserRelationship → ℕ → ℕ → String → List UserRelationship
added w rows f g type = rows ++ new_row w.sequence f g type ∷ []

-- A call that returns was not about one user twice, and leaves these rows.
abbrev pub Becomes : {A : Type 0} → World → ℕ → ℕ → List UserRelationship → A → Db → Type 0
Becomes w f g rows _ d = ((f == g) ≡ false) × (d ≡ record w.db { relationships = rows })

-- The DELETE of one direction, with or without a row to delete.
abbrev Clears : World → ℕ → ℕ → Result (Unit {0}) × World → Type 0
Clears x f g (err e, v) = Unit
Clears x f g (ok _, v) =
    (v.db ≡ record x.db { relationships = delete (between f g) x.db.relationships })
    × (v.sequence ≡ x.sequence)

clear_lem : (x : World) (f g : ℕ) → Clears x f g (allow_missing (delete_between f g) x)
unfolding delete_between reach
clear_lem x f g = ground arith

create_lem :
    (x : World) (f g : ℕ) (type : String)
    → Ends x (Becomes x f g (added x x.db.relationships f g type)) (create f g type x)
unfolding create reach
create_lem x f g type = ground arith

-- The body of the transaction: where it returns, its rows.
abbrev Blocked : World → ℕ → ℕ → Result (Option UserRelationship) × World → Type 0
Blocked x f g (err e, v) = Unit
Blocked x f g (ok r, v) =
    Becomes x f g
      (added x (delete (between g f) (delete (between f g) x.db.relationships)) f g "block") r v.db

block_body_lem : (x : World) (f g : ℕ) → Blocked x f g (block_body f g "block" x)
unfolding block_body
block_body_lem x f g =
    let y : World = (allow_missing (delete_between f g) x).1 in
    let z : World = (allow_missing (delete_between g f) y).1 in
    ground (arith, clear_lem x f g, clear_lem y g f, create_lem z f g "block")

pub block_rows :
    (w : World) (f g : ℕ)
    → Ends w
        (Becomes w f g
          (added w (delete (between g f) (delete (between f g) w.db.relationships)) f g "block"))
        (create_relationship f g "block" w)
unfolding create_relationship get_by_id reach transaction
block_rows w f g = ground (arith, block_body_lem (reach (reach w).1).1 f g)

-- A row that is there already is not written again.
abbrev pub kept : World → ℕ → ℕ → String → List UserRelationship
kept w f g type =
    if any (is_row f g type) w.db.relationships
    then w.db.relationships
    else added w w.db.relationships f g type

pub follow_rows :
    (w : World) (f g : ℕ)
    → Ends w (Becomes w f g (kept w f g "follow")) (create_relationship f g "follow" w)
unfolding create_relationship follow_body create exists get_by_id reach transaction
follow_rows w f g = ground arith

pub mute_rows :
    (w : World) (f g : ℕ)
    → Ends w (Becomes w f g (kept w f g "mute")) (create_relationship f g "mute" w)
unfolding create_relationship mute_body create exists get_by_id reach transaction
mute_rows w f g = ground arith

-- Any other type writes nothing.
pub other_rows :
    (w : World) (f g : ℕ) (type : String)
    → is_type type ≡ false
    → (create_relationship f g type w).1.db ≡ w.db
unfolding create_relationship get_by_id reach transaction
other_rows w f g type h = ground arith

pub delete_rows :
    (w : World) (f g : ℕ) (type : String)
    → Ends w
        (λ _ d. d ≡ record w.db { relationships = delete (is_row f g type) w.db.relationships })
        (delete_relationship f g type w)
unfolding delete_relationship delete_by_type reach transaction
delete_rows w f g type = ground arith
