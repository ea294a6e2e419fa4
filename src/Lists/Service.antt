-- ===== src/Lists/Service.antt =====
-- server/internal/service/list_service.go
use Prim.Native.String.{len}
use gaggle.Prelude.{ℕ, not, ◌||◌, String, ◌==◌, ltb, str_eq}
use gaggle.AppErrors.{no_cause, bad_request_error, forbidden_error}
use gaggle.Database.{ListRow, M, pure, raise_if, ◌>>=◌, ◌>>◌}
use gaggle.Posts.{trim_space}
use gaggle.Lists.Store.{
  ListView, create_row, get_list, delete_row, update_row, add_member_row, remove_member_row,
}

-- `validateListPayload`
abbrev pub validate_list_payload : String → String → M (String × String)
validate_list_payload name description = do
  raise_if (str_eq (trim_space name) "" || ltb 100 (len (trim_space name)))
      (bad_request_error "list name is required (max 100 characters)" no_cause)
  raise_if (ltb 300 (len (trim_space description)))
      (bad_request_error "list description must be at most 300 characters" no_cause)
  pure (trim_space name, trim_space description)

-- `Create`
unfoldable pub create_list : ℕ → String → String → M ListRow
create_list owner_id name description = do
  (name', description') ← validate_list_payload name description
  create_row owner_id name' description'

-- `Update`
unfoldable pub update_list : ℕ → ℕ → String → String → M ListView
update_list list_id actor_id name description = do
  view ← get_list list_id
  raise_if (not (view.row.owner_id == actor_id))
      (forbidden_error "only the list owner can edit this list" no_cause)
  (name', description') ← validate_list_payload name description
  update_row list_id name' description'

-- `Delete`
unfoldable pub delete_list : ℕ → ℕ → M (Unit {0})
delete_list list_id actor_id = do
  view ← get_list list_id
  raise_if (not (view.row.owner_id == actor_id))
      (forbidden_error "only the list owner can delete this list" no_cause)
  delete_row list_id actor_id

-- `requireOwner`
unfoldable pub require_owner : ℕ → ℕ → M (Unit {0})
require_owner list_id actor_id = do
  view ← get_list list_id
  raise_if (not (view.row.owner_id == actor_id))
      (forbidden_error "only the list owner can edit this list" no_cause)

-- `AddMember`
unfoldable pub add_member : ℕ → ℕ → ℕ → M (Unit {0})
add_member list_id actor_id member_id = do
  require_owner list_id actor_id
  add_member_row list_id member_id

-- `RemoveMember`
unfoldable pub remove_member : ℕ → ℕ → ℕ → M (Unit {0})
remove_member list_id actor_id member_id = do
  require_owner list_id actor_id
  remove_member_row list_id member_id
