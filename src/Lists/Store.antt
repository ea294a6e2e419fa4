-- ===== src/Lists/Store.antt =====
-- server/internal/store/list_store.go, with the constraints of migration 000014.
use Prim.Native.String.{count as rune_count}
use gaggle.Prelude.{
  ℕ, Bool, not, ◌&&◌, ◌||◌, String, List, [], ◌∷◌, ◌++◌, none, some, ◌==◌, ltb, str_eq,
  if◌then◌else◌, find, count, update, delete, any,
}
use gaggle.AppErrors.{
  AppError, ok, err, no_cause, other_cause, not_found_error, bad_request_error,
  already_exists_error,
}
use gaggle.Database.{
  ListRow, ListMember, Db, M, database_error, reach, query, statement, next_serial, raise_if, ◌>>=◌,
  ◌>>◌,
}
use gaggle.Accounts.{row_or}

abbrev pub has_list_id : ℕ → ListRow → Bool
has_list_id id l = l.id == id

abbrev pub has_name : ℕ → String → ListRow → Bool
has_name owner name l = l.owner_id == owner && str_eq l.name name

abbrev pub is_member : ℕ → ℕ → ListMember → Bool
is_member list_id user_id m = m.list_id == list_id && m.user_id == user_id

abbrev pub has_owner : Db → ListRow → Bool
has_owner d l = any (λ u. u.id == l.owner_id) d.users

abbrev too_wide : String → String → Bool
too_wide name description = ltb 100 (rune_count name) || ltb 300 (rune_count description)

abbrev same_name_error : AppError
same_name_error = already_exists_error "you already have a list with that name" other_cause

-- INSERT INTO lists: the widths, UNIQUE (owner_id, name) with code 23505, and the owner's key.
abbrev insert_list : ListRow → M ListRow
insert_list l w =
    if too_wide l.name l.description
    then (err database_error, w)
    else if any (has_name l.owner_id l.name) w.db.lists
    then (err same_name_error, w)
    else if not (has_owner w.db l)
    then (err database_error, w)
    else (ok l, record w { db = record w.db { lists = w.db.lists ++ l ∷ [] } })

-- `Create`
unfoldable pub create_row : ℕ → String → String → M ListRow
create_row owner_id name description = do
  reach
  id ← next_serial
  insert_list (record { id = id; owner_id = owner_id; name = name; description = description })

-- A list with the count of its members.
pub record ListView : Type 0 where
  pub row : ListRow
  pub member_count : ℕ

-- `GetByID`; JOIN users asks for the owner's row.
unfoldable pub get_list : ℕ → M ListView
get_list list_id = do
  row ← query λ d. elim (find (λ l. has_list_id list_id l && has_owner d l) d.lists) [
    | none ↦ none
    | some l ↦
        some (record { row = l; member_count = count (λ m. m.list_id == list_id) d.list_members })
  ]
  row_or row (not_found_error "list not found" other_cause)

abbrev pub is_owned : ℕ → ℕ → ListRow → Bool
is_owned list_id owner_id l = l.id == list_id && l.owner_id == owner_id

-- `Delete`; the members cascade.
unfoldable pub delete_row : ℕ → ℕ → M (Unit {0})
delete_row list_id owner_id = do
  affected ← statement λ w. (
    any (is_owned list_id owner_id) w.db.lists,
    record w.db {
      lists = delete (is_owned list_id owner_id) w.db.lists;
      list_members =
          if any (is_owned list_id owner_id) w.db.lists
          then delete (λ m. m.list_id == list_id) w.db.list_members
          else w.db.list_members;
    },
  )
  raise_if (not affected) (not_found_error "list not found" no_cause)

abbrev rename : String → String → ListRow → ListRow
rename name description l = record l { name = name; description = description }

-- The name is taken by another list of the owner of this one.
abbrev is_taken : ℕ → String → List ListRow → Bool
is_taken list_id name ls =
    any
      (λ l.
        has_list_id list_id l
        && any (λ k. not (has_list_id list_id k) && has_name l.owner_id name k) ls)
      ls

abbrev update_statement : ℕ → String → String → M (Unit {0})
update_statement list_id name description w =
    if any (has_list_id list_id) w.db.lists && too_wide name description
    then (err database_error, w)
    else if is_taken list_id name w.db.lists
    then (err same_name_error, w)
    else (
      ok tt,
      record w {
        db = record w.db {
          lists = update (has_list_id list_id) (rename name description) w.db.lists;
        };
      },
    )

-- `Update`
unfoldable pub update_row : ℕ → String → String → M ListView
update_row list_id name description = do
  reach
  update_statement list_id name description
  get_list list_id

-- INSERT INTO list_members: the PRIMARY KEY with code 23505, and the user's key.
abbrev insert_member : ListMember → M (Unit {0})
insert_member m w =
    if any (is_member m.list_id m.user_id) w.db.list_members
    then (err (already_exists_error "user is already in this list" other_cause), w)
    else if not (any (λ u. u.id == m.user_id) w.db.users)
    then (err database_error, w)
    else (ok tt, record w { db = record w.db { list_members = w.db.list_members ++ m ∷ [] } })

-- `AddMember`
unfoldable pub add_member_row : ℕ → ℕ → M (Unit {0})
add_member_row list_id member_id = do
  row ← query (λ d. find (has_list_id list_id) d.lists)
  l ← row_or row (not_found_error "list not found" other_cause)
  raise_if (l.owner_id == member_id)
      (bad_request_error "you cannot add yourself to your own list" no_cause)
  reach
  insert_member (record { list_id = list_id; user_id = member_id })

-- `RemoveMember`
unfoldable pub remove_member_row : ℕ → ℕ → M (Unit {0})
remove_member_row list_id member_id = do
  affected ← statement λ w. (
    any (is_member list_id member_id) w.db.list_members,
    record w.db { list_members = delete (is_member list_id member_id) w.db.list_members },
  )
  raise_if (not affected) (not_found_error "user is not in this list" no_cause)
