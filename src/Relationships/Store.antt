-- ===== src/Relationships/Store.antt =====
-- server/internal/store/user_relationship_store.go: the statements on user_relationships, with the
-- constraints of migrations 000006 and 000016.
use gaggle.Prelude.{
  ℕ, Bool, true, false, not, ◌&&◌, ◌||◌, String, List, [], ◌∷◌, ◌++◌, Option, map, ◌==◌, str_eq,
  if◌then◌else◌, find, select, delete, any,
}
use gaggle.AppErrors.{AppError, ok, err, not_found_error, no_cause, other_cause}
use gaggle.Database.{
  UserRelationship, Db, M, database_error, reach, query, statement, next_serial, pure, raise_if,
  ◌>>=◌, ◌>>◌,
}
use gaggle.Accounts.{row_or}

abbrev pub between : ℕ → ℕ → UserRelationship → Bool
between follower following r = r.follower_id == follower && r.following_id == following

abbrev pub is_row : ℕ → ℕ → String → UserRelationship → Bool
is_row follower following type r = between follower following r && str_eq r.relationship_type type

-- CHECK (relationship_type IN ('follow', 'block', 'mute'))
abbrev pub is_type : String → Bool
is_type type = str_eq type "follow" || str_eq type "block" || str_eq type "mute"

abbrev pub user_exists : Db → ℕ → Bool
user_exists d id = any (λ u. u.id == id) d.users

abbrev pub new_row : ℕ → ℕ → ℕ → String → UserRelationship
new_row id follower following type = record {
  relationship_id = id;
  follower_id = follower;
  following_id = following;
  relationship_type = type;
}

-- The INSERT of `Create`: its CHECKs, the UNIQUE key and the foreign keys. The code asks for lib/pq's
-- error type and the driver is pgx, whose errors are of another type, so each of them is answered
-- as any other error of the database.
abbrev insert_row : UserRelationship → M UserRelationship
insert_row r w =
    if r.follower_id == r.following_id || not (is_type r.relationship_type)
    then (err database_error, w)
    else if any (is_row r.follower_id r.following_id r.relationship_type) w.db.relationships
    then (err database_error, w)
    else if not (user_exists w.db r.follower_id && user_exists w.db r.following_id)
    then (err database_error, w)
    else (ok r, record w { db = record w.db { relationships = w.db.relationships ++ r ∷ [] } })

unfoldable pub create : ℕ → ℕ → String → M UserRelationship
create follower following type = do
  reach
  id ← next_serial
  insert_row (new_row id follower following type)

-- `GetByIDs`: the first row of the pair, whatever its type.
unfoldable pub get_by_ids : ℕ → ℕ → M UserRelationship
get_by_ids follower following = do
  row ← query (λ d. find (between follower following) d.relationships)
  row_or row (not_found_error "relationship not found between these users" other_cause)

abbrev pub no_relationship : AppError
no_relationship = not_found_error "relationship not found between these users" no_cause

abbrev delete_where : (UserRelationship → Bool) → M Bool
delete_where p =
    statement
      λ w. (any p w.db.relationships, record w.db { relationships = delete p w.db.relationships })

-- `Delete`: every row of the pair. No row affected is NOT_FOUND.
unfoldable pub delete_between : ℕ → ℕ → M (Unit {0})
delete_between follower following = do
  affected ← delete_where (between follower following)
  raise_if (not affected) no_relationship

-- `DeleteByType`
unfoldable pub delete_by_type : ℕ → ℕ → String → M (Unit {0})
delete_by_type follower following type = do
  affected ← delete_where (is_row follower following type)
  raise_if (not affected) no_relationship

-- `Exists`
unfoldable pub exists : ℕ → ℕ → String → M Bool
exists follower following type = query λ d. any (is_row follower following type) d.relationships

pub record RelationshipStatus : Type 0 where
  pub is_following : Bool
  pub is_blocked : Bool
  pub is_muted : Bool

abbrev pub no_status : RelationshipStatus
no_status = record { is_following = false; is_blocked = false; is_muted = false }

-- The switch on a scanned relationship_type.
abbrev pub add_type : RelationshipStatus → String → RelationshipStatus
add_type s type =
    if str_eq type "follow"
    then record s { is_following = true }
    else if str_eq type "block"
    then record s { is_blocked = true }
    else if str_eq type "mute"
    then record s { is_muted = true }
    else s

-- The loop over the rows of a pair.
unfoldable pub scan_status : RelationshipStatus → List UserRelationship → RelationshipStatus
scan_status s [] = s
scan_status s (r ∷ rows) = scan_status (add_type s r.relationship_type) rows

-- `GetRelationshipStatus`
unfoldable pub get_relationship_status : ℕ → ℕ → M RelationshipStatus
get_relationship_status follower following =
    query λ d. scan_status no_status (select (between follower following) d.relationships)

-- `GetRelationshipStatuses`: the map it returns, as a function that is none on the keys that it
-- lacks; every id asked for has a key.
unfoldable pub get_relationship_statuses : ℕ → List ℕ → M (ℕ → Option RelationshipStatus)
get_relationship_statuses viewer [] = pure (λ id. Option.none)
get_relationship_statuses viewer (i ∷ ids) = query λ d id.
    if any (λ j. j == id) (i ∷ ids)
    then Option.some (scan_status no_status (select (between viewer id) d.relationships))
    else Option.none

-- `GetFollowerIDs`
unfoldable pub get_follower_ids : ℕ → M (List ℕ)
get_follower_ids user_id = query λ d.
    map (λ r. r.follower_id)
      (select (λ r. r.following_id == user_id && str_eq r.relationship_type "follow")
        d.relationships)
