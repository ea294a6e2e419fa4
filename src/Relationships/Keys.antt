-- ===== src/Relationships/Keys.antt =====
-- The key of user_relationships through every call.
use mathlib.Core.Path.{subst}
use gaggle.Relationships.Block.{cleared_here}
use gaggle.Prelude.{
  sym, ℕ, ◌+◌, ◌≤◌, ◌≡◌, refl, inl, inr, Bool, true, false, String, List, [], ◌∷◌, arith, delete,
  any, count, count-append_one, count-delete-le, if◌then◌else◌, ◌==◌, str_eq, str_eq_iff,
  Bool-cases,
}
use gaggle.Database.{UserRelationship, Db, World, Ends-keeps}
use gaggle.Relationships.Store.{is_row, new_row}
use gaggle.Relationships.Service.{create_relationship, delete_relationship}
use gaggle.Relationships.Rows.{
  added, kept, block_rows, follow_rows, mute_rows, other_rows, delete_rows,
}

abbrev pub Keyed : List UserRelationship → Type 0
Keyed rows =
    ((f g : ℕ) (t : String) → count (is_row f g t) rows ≤ 1)
    × ((f : ℕ) (t : String) → count (is_row f f t) rows ≡ 0)

Keyed-delete :
    (q : UserRelationship → Bool) (rows : List UserRelationship)
    → Keyed rows
    → Keyed (delete q rows)
Keyed-delete q rows k = (
  λ f g t. omega (arith, k.0 f g t, count-delete-le (is_row f g t) q rows),
  λ f t. omega (arith, k.1 f t, count-delete-le (is_row f f t) q rows),
)

-- A row whose key is not there yet may be added.
count_same_key :
    (id f g a b : ℕ) (t u : String) (rows : List UserRelationship)
    → is_row a b u (new_row id f g t) ≡ true
    → any (is_row f g t) rows ≡ false
    → count (is_row a b u) rows ≡ 0
count_same_key id f g a b t u [] same h = refl
count_same_key id f g a b t u (r ∷ rows) same h = ground (
  arith,
  count_same_key id f g a b t u rows same,
  str_eq_iff t u,
  str_eq_iff r.relationship_type t,
  str_eq_iff r.relationship_type u,
)

row_ne_key :
    (id f g a b : ℕ) (t u : String) (rows : List UserRelationship)
    → any (is_row f g t) rows ≡ false
    → count (is_row a b u) rows ≤ 1
    → count (is_row a b u) rows + (if is_row a b u (new_row id f g t) then 1 else 0) ≤ 1
row_ne_key id f g a b t u rows h k = elim (Bool-cases (is_row a b u (new_row id f g t))) [
  | inl same ↦ rw same (omega (arith, count_same_key id f g a b t u rows same h))
  | inr other ↦ rw other (omega arith)
]

Keyed-added :
    (w : World) (rows : List UserRelationship) (f g : ℕ) (t : String)
    → Keyed rows
    → (f == g) ≡ false
    → any (is_row f g t) rows ≡ false
    → Keyed (added w rows f g t)
Keyed-added w rows f g t k n fresh = (
  λ a b u.
      rw (count-append_one (is_row a b u) rows (new_row w.sequence f g t))
        (row_ne_key w.sequence f g a b t u rows fresh (k.0 a b u)),
  λ a u.
      rw (count-append_one (is_row a a u) rows (new_row w.sequence f g t))
        (ground (arith, k.1 a u)),
)

Keyed-kept :
    (w : World) (f g : ℕ) (t : String)
    → (f == g) ≡ false
    → Keyed w.db.relationships
    → Keyed (kept w f g t)
Keyed-kept w f g t n k = elim (Bool-cases (any (is_row f g t) w.db.relationships)) [
  | inl old ↦ rw old k
  | inr new ↦ rw new (Keyed-added w w.db.relationships f g t k n new)
]

abbrev pub IsKeyed : Db → Type 0
IsKeyed d = Keyed d.relationships

block-IsKeyed :
    (w : World) (f g : ℕ) → IsKeyed w.db → IsKeyed (create_relationship f g "block" w).1.db
block-IsKeyed w f g k =
    Ends-keeps IsKeyed w (create_relationship f g "block" w) k
      (λ _ d h. rw h.1 (
        Keyed-added w _ f g "block" (Keyed-delete _ _ (Keyed-delete _ _ k)) h.0
          (cleared_here w f g h.0 "block")))
      (block_rows w f g)

follow-IsKeyed :
    (w : World) (f g : ℕ) → IsKeyed w.db → IsKeyed (create_relationship f g "follow" w).1.db
follow-IsKeyed w f g k =
    Ends-keeps IsKeyed w (create_relationship f g "follow" w) k
      (λ _ d h. rw h.1 (Keyed-kept w f g "follow" h.0 k)) (follow_rows w f g)

mute-IsKeyed :
    (w : World) (f g : ℕ) → IsKeyed w.db → IsKeyed (create_relationship f g "mute" w).1.db
mute-IsKeyed w f g k =
    Ends-keeps IsKeyed w (create_relationship f g "mute" w) k
      (λ _ d h. rw h.1 (Keyed-kept w f g "mute" h.0 k)) (mute_rows w f g)

-- Creating a relationship of any type, known or not, keeps the key: on every branch, errors and
-- failures of the database included, no pair then has two rows of one type and nobody has one with
-- themselves.
pub create_relationship-IsKeyed :
    (w : World) (f g : ℕ) (type : String)
    → IsKeyed w.db
    → IsKeyed (create_relationship f g type w).1.db
create_relationship-IsKeyed w f g type k = elim (Bool-cases (str_eq type "follow")) [
  | inl e ↦ rw ((str_eq_iff type "follow").0 e) (follow-IsKeyed w f g k)
  | inr nf ↦ elim (Bool-cases (str_eq type "block")) [
    | inl e ↦ rw ((str_eq_iff type "block").0 e) (block-IsKeyed w f g k)
    | inr nb ↦ elim (Bool-cases (str_eq type "mute")) [
      | inl e ↦ rw ((str_eq_iff type "mute").0 e) (mute-IsKeyed w f g k)
      | inr nm ↦ subst IsKeyed (sym (other_rows w f g type (ground arith))) k
    ]
  ]
]

-- Removing a relationship keeps the key: afterwards, wherever the database failed, no pair has two
-- rows of one type and nobody has one with themselves.
pub delete_relationship-IsKeyed :
    (w : World) (f g : ℕ) (type : String)
    → IsKeyed w.db
    → IsKeyed (delete_relationship f g type w).1.db
delete_relationship-IsKeyed w f g type k =
    Ends-keeps IsKeyed w (delete_relationship f g type w) k (λ _ d h. rw h (Keyed-delete _ _ k))
      (delete_rows w f g type)
