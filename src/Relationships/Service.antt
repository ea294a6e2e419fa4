-- ===== src/Relationships/Service.antt =====
-- server/internal/service/user_relationship_service.go
use gaggle.Prelude.{ℕ, String, Option, none, some, ◌==◌, str_eq, if◌then◌else◌}
use gaggle.AppErrors.{
  Result, ok, err, bad_request_error, not_found_error, forbidden_error, no_cause, not_found, is,
}
use gaggle.Database.{UserRelationship, M, transaction, pure, raise_if, ◌>>=◌, ◌>>◌}
use gaggle.Accounts.{get_by_id}
use gaggle.Relationships.Store.{
  RelationshipStatus, new_row, create, delete_between, delete_by_type, exists,
  get_relationship_status,
}

-- `err != nil && !apperrors.Is(err, apperrors.NotFound)`
abbrev unless_missing : Result (Unit {0}) → Result (Unit {0})
unless_missing (ok u) = ok u
unless_missing (err e) = if is e not_found then ok tt else err e

abbrev pub allow_missing : M (Unit {0}) → M (Unit {0})
allow_missing m w = let (r, w') = m w in (unless_missing r, w')

-- The struct literal that is returned where the row is there already: its id is the zero value.
abbrev unsaved : ℕ → ℕ → String → UserRelationship
unsaved = new_row 0

unfoldable pub block_body : ℕ → ℕ → String → M (Option UserRelationship)
block_body follower following type = do
  allow_missing (delete_between follower following)
  allow_missing (delete_between following follower)
  relationship ← create follower following type
  pure (some relationship)

unfoldable pub follow_body : ℕ → ℕ → String → M (Option UserRelationship)
follow_body follower following type = do
  blocked_by_target ← exists following follower "block"
  raise_if blocked_by_target (forbidden_error "cannot follow this user" no_cause)
  existing ← exists follower following "follow"
  if existing
      then pure (some (unsaved follower following type))
      else do relationship ← create follower following type; pure (some relationship)

unfoldable pub mute_body : ℕ → ℕ → String → M (Option UserRelationship)
mute_body follower following type = do
  existing ← exists follower following "mute"
  if existing
      then pure (some (unsaved follower following type))
      else do relationship ← create follower following type; pure (some relationship)

-- Any other type commits an empty transaction and returns nil.
abbrev body_of : ℕ → ℕ → String → M (Option UserRelationship)
body_of follower following type =
    if str_eq type "block"
    then block_body follower following type
    else if str_eq type "follow"
    then follow_body follower following type
    else if str_eq type "mute"
    then mute_body follower following type
    else pure none

-- `CreateRelationship`
unfoldable pub create_relationship : ℕ → ℕ → String → M (Option UserRelationship)
create_relationship follower following type = do
  raise_if (follower == following)
      (bad_request_error "cannot create relationship with yourself" no_cause)
  target ← get_by_id following
  raise_if target.soft_deleted (not_found_error "user not found" no_cause)
  transaction (body_of follower following type)

-- `DeleteRelationship`
unfoldable pub delete_relationship : ℕ → ℕ → String → M (Unit {0})
delete_relationship follower following type = transaction (delete_by_type follower following type)

-- `GetRelationshipStatus`
unfoldable pub relationship_status : ℕ → ℕ → M RelationshipStatus
relationship_status follower_id following_id = do
  follower ← get_by_id follower_id
  raise_if follower.soft_deleted (not_found_error "user not found" no_cause)
  following ← get_by_id following_id
  raise_if following.soft_deleted (not_found_error "user not found" no_cause)
  get_relationship_status follower_id following_id
