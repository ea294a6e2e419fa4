-- ===== src/Accounts.antt =====
-- The lookups of server/internal/store/user_store.go.
use gaggle.Prelude.{
  ℕ, Bool, false, String, List, [], ◌∷◌, Option, none, some, ◌==◌, str_eq, if◌then◌else◌, find, any,
}
use gaggle.AppErrors.{AppError, not_found_error, other_cause}
use gaggle.Database.{User, M, query, pure, raise, ◌>>=◌}

-- `sql.ErrNoRows` becomes the given error.
abbrev pub row_or : {A : Type 0} → Option A → AppError → M A
row_or (some a) e = pure a
row_or none e = raise e

-- `GetByID`; a formatted message stands as its format.
unfoldable pub get_by_id : ℕ → M User
get_by_id id = do
  row ← query (λ d. find (λ u. u.id == id) d.users)
  row_or row (not_found_error "user with id %d not found" other_cause)

-- The database's LOWER, which is not part of the repository.
module _ (lower : String → String) where
  -- `GetByUsername`
  unfoldable pub get_by_username : String → M User
  get_by_username username = do
    row ← query (λ d. find (λ u. str_eq (lower u.username) (lower username)) d.users)
    row_or row (not_found_error "user with username %s not found" other_cause)

-- `GetIsPrivate`: a map from the ids that have a row; a missing key reads as false.
abbrev pub is_private_in : List User → List ℕ → ℕ → Bool
is_private_in users ids id = elim (find (λ u. u.id == id) users) [
  | none ↦ false
  | some u ↦ if any (λ i. i == id) ids then u.is_private else false
]

unfoldable pub get_is_private : List ℕ → M (ℕ → Bool)
get_is_private [] = pure (λ id. false)
get_is_private (i ∷ ids) = query (λ d. is_private_in d.users (i ∷ ids))
