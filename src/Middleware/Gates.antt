-- ===== src/Middleware/Gates.antt =====
-- token.go, admin.go, mail_secret.go and post.go. A handler is the call that a request ends in; the
-- answer that a gate writes itself is that call's error.
use Prim.Native.Char.{code}
use gaggle.Prelude.{
  not, ◌||◌, String, List, [], ◌∷◌, Option, none, some, ◌==◌, ltb, str_eq, if◌then◌else◌, ℤ, pos,
  negsuc,
}
use gaggle.AppErrors.{
  AppError, Cause, no_cause, token_expired, other_cause, Result, ok, err, unauthorized_error,
  forbidden_error, not_found_error, bad_request_error,
}
use gaggle.Database.{User, Post, M, pure, raise, raise_if, database_error, reach, ◌>>=◌, ◌>>◌}
use gaggle.Accounts.{get_by_id}
use gaggle.Posts.{get_post}
use gaggle.Pages.{atoi}
use gaggle.Sessions.{
  Libraries, JwtAuthenticator, access_token, validate_token, get_user_id_from_token,
}

abbrev pub add_char : Prim.Native.Char.Char → List String → List String
add_char c [] = String.◌∷◌ c String.[] ∷ []
add_char c (p ∷ ps) = String.◌∷◌ c p ∷ ps

-- strings.Split(s, " ")
unfoldable pub split_spaces : String → List String
split_spaces String.[] = String.[] ∷ []
split_spaces (String.◌∷◌ c s) =
    let rest = split_spaces s in if code c == 32 then String.[] ∷ rest else add_char c rest

abbrev pub malformed : AppError
malformed = unauthorized_error "authorization header malformed" no_cause

-- The token of a header of two parts.
abbrev pub bearer : List String → Result String
bearer [] = err malformed
bearer (scheme ∷ []) = err malformed
bearer (scheme ∷ token ∷ []) = if str_eq scheme "Bearer" then ok token else err malformed
bearer (scheme ∷ token ∷ p ∷ parts) = err malformed

-- What an error wraps that wraps another one.
abbrev pub wrapped : Cause → Cause
wrapped token_expired = token_expired
wrapped no_cause = other_cause
wrapped other_cause = other_cause

-- The error of a check, answered as 401 with a message of the gate's own.
abbrev pub or_unauthorized : {A : Type 0} → String → Result A → M A
or_unauthorized message (ok a) w = (ok a, w)
or_unauthorized message (err e) w = (err (unauthorized_error message (wrapped e.err)), w)

abbrev pub or_refused : {A : Type 0} → Result A → M A
or_refused r w = (r, w)

module _ (lib : Libraries) (a : JwtAuthenticator) where
  -- `AuthTokenMiddleware`
  unfoldable pub auth_token_middleware : {A : Type 0} → String → (User → M A) → M A
  auth_token_middleware header next = do
    raise_if (str_eq header "") (unauthorized_error "authorization header missing" no_cause)
    token ← or_refused (bearer (split_spaces header))
    claims ← λ w.
        or_unauthorized "token expired or invalid" (validate_token lib a token access_token w.now) w
    user_id ← or_unauthorized "malformed jwt" (get_user_id_from_token claims)
    user ← get_by_id user_id
    raise_if user.soft_deleted (unauthorized_error "user is not active" no_cause)
    next user

-- `AdminOnlyMiddleware`, on the user that the context holds.
unfoldable pub admin_only_middleware : {A : Type 0} → Option User → M A → M A
admin_only_middleware none next = raise (unauthorized_error "authentication required" other_cause)
admin_only_middleware (some user) next = do
  raise_if (not user.is_admin) (forbidden_error "admin access required" no_cause)
  next

-- `OrchidSecretMiddleware`: the configured secret and the header; none is its own answer, 401.
unfoldable pub orchid_secret_middleware : {A : Type 0} → String → String → M A → M (Option A)
orchid_secret_middleware secret provided next w =
    if str_eq secret "" || not (str_eq provided secret)
    then (ok none, w)
    else (do a ← next; pure (some a)) w

-- The post of an id that may be negative; the database refuses a number that is no int4.
abbrev pub post_of : ℤ → M Post
post_of (pos n) = if ltb 2_147_483_647 n then (do reach; raise database_error) else get_post n
post_of (negsuc n) =
    if ltb 2_147_483_647 n
    then (do reach; raise database_error)
    else (do reach; raise (not_found_error "post with id %d not found" other_cause))

abbrev pub parsed_id : Option ℤ → M ℤ
parsed_id none = raise (bad_request_error "invalid post ID" other_cause)
parsed_id (some i) = pure i

-- `SetPostContextMiddleware`, on the parameter of the route.
unfoldable pub set_post_context_middleware : {A : Type 0} → String → (Post → M A) → M A
set_post_context_middleware post_id next = do
  id ← parsed_id (atoi post_id)
  post ← post_of id
  raise_if post.soft_deleted (not_found_error "post with id %d not found" no_cause)
  next post
