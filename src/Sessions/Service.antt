-- ===== src/Sessions/Service.antt =====
-- server/internal/service/auth_service.go: login, refresh, logout and the stream's check.
use Prim.Native.String.{len, slice}
use Prim.Native.Char.{code}
use gaggle.Prelude.{
  ℕ, zero, suc, Bool, true, false, not, ◌&&◌, String, Option, none, some, ◌==◌, ltb, str_eq,
  if◌then◌else◌, find,
}
use gaggle.AppErrors.{
  AppError, Result, ok, err, Cause, no_cause, token_expired, other_cause, internal_server_error,
  unauthorized_error, not_found_error, session_expired_error, not_found, is,
}
use gaggle.Database.{
  User, RefreshToken, Db, World, M, reach, query, transaction, pure, raise, raise_if, ◌>>=◌, ◌>>◌,
}
use gaggle.Accounts.{get_by_id, get_by_username, row_or}
use gaggle.Sessions.Tokens.{
  Libraries, JwtAuthenticator, Token, access_token, refresh_token, Claims, generate_token,
  validate_token, get_user_id_from_token,
}
use gaggle.Sessions.Store.{
  revoked_reason_rotated, revoked_reason_logout, revoked_reason_theft, create_refresh_token,
  get_refresh_token, rotate_refresh_token, get_current_active_token, revoke_session,
  session_has_active_token,
}

-- `if len(userAgent) > 255 { userAgent = userAgent[:255] }`, on an ASCII user agent.
abbrev pub fit_column : String → String
fit_column user_agent = if ltb 255 (len user_agent) then slice user_agent 0 255 else user_agent

-- `strings.Split(remoteAddr, ":")[0]`
unfoldable pub strip_port : String → String
strip_port String.[] = String.[]
strip_port (String.◌∷◌ c s) =
    let rest = strip_port s in if code c == b':' then String.[] else String.◌∷◌ c rest

-- `strings.Contains(identifier, "@")`
unfoldable pub has_at : String → Bool
has_at String.[] = false
has_at (String.◌∷◌ c s) = if code c == b'@' then true else has_at s

-- An error of a call that is answered by an error of the service's own.
abbrev pub or_error : {A : Type 0} → Result A → (AppError → AppError) → M A
or_error (ok a) f = pure a
or_error (err e) f = raise (f e)

abbrev pub map_error : {A : Type 0} → M A → (AppError → AppError) → M A
map_error m f w = let (r, w') = m w in or_error r f w'

-- `apperrors.Is(err, apperrors.NotFound)` answered by one error, any other passed on.
abbrev missing_as : AppError → AppError → AppError
missing_as answer e = if is e not_found then answer else e

abbrev pub invalid_token_answer : AppError
invalid_token_answer = unauthorized_error "invalid token" no_cause

abbrev pub session_expired_answer : AppError
session_expired_answer = session_expired_error "session expired" no_cause

-- The answer to a refresh token that does not validate: `errors.Is(err, jwt.ErrTokenExpired)`.
abbrev refused_by : Cause → AppError
refused_by token_expired = session_expired_error "session expired" token_expired
refused_by no_cause = unauthorized_error "invalid token" other_cause
refused_by other_cause = unauthorized_error "invalid token" other_cause

-- One round of the loop of `rotateCurrentActiveToken`. What fails before the rotation ends the
-- call; a rotation that finds nothing to retire may be tried again.
pub data Attempt : Type 0 where
  rotated : Token → Attempt
  failed : AppError → Attempt
  lost : AppError → Attempt

abbrev pub commit_attempt : Db → Result (Unit {0}) → Token → World → Attempt × World
commit_attempt before (err e) token w = (lost e, record w { db = before })
commit_attempt before (ok _) token w =
    let (r, w') = reach w in
    elim r [ ok _ ↦ (rotated token, w') | err e ↦ (failed e, record w' { db = before }) ]

abbrev pub rotate_attempt : Db → Result (RefreshToken × Token) → World → Attempt × World
rotate_attempt before (err e) w = (failed e, record w { db = before })
rotate_attempt before (ok (active, token)) w =
    let (r, w') = rotate_refresh_token active.token_hash w in commit_attempt before r token w'

-- `storedRefreshToken.RevokedReason != nil && *… == RevokedReasonRotated`
abbrev pub was_rotated : Option String → Bool
was_rotated none = false
was_rotated (some reason) = str_eq reason revoked_reason_rotated

abbrev pub same_device : RefreshToken → String → Bool
same_device stored user_agent =
    not (str_eq stored.user_agent "") && str_eq stored.user_agent user_agent

module _ (lib : Libraries) (a : JwtAuthenticator) where
  -- `issueRefreshToken`
  unfoldable pub issue_refresh_token : ℕ → ℕ → String → String → M Token
  issue_refresh_token user_id session_id remote_addr user_agent = do
    token ←
        map_error (generate_token lib a user_id refresh_token)
          (λ e. internal_server_error other_cause)
    create_refresh_token lib.is_inet (record {
      refresh_token_id = 0;
      session_id = session_id;
      user_id = user_id;
      token_hash = lib.hash_token token.token_string;
      issued_at = token.issued_at;
      expires_at = token.expires_at;
      revoked = false;
      revoked_at = none;
      revoked_reason = none;
      user_agent = fit_column user_agent;
      ip_address = strip_port remote_addr;
    })
    pure token

  -- `CreateRefreshToken`: a new session family.
  unfoldable pub new_session : ℕ → String → String → M Token
  new_session user_id remote_addr user_agent = do
    session_id ← λ w. (ok w.next_uuid, record w { next_uuid = suc w.next_uuid })
    issue_refresh_token user_id session_id remote_addr user_agent

  abbrev pub access_for : ℕ → M Token
  access_for user_id =
      map_error (generate_token lib a user_id access_token) (λ e. internal_server_error other_cause)

  -- `GetByEmail`
  unfoldable pub get_by_email : String → M User
  get_by_email email = do
    row ← query (λ d. find (λ u. str_eq (lib.lower u.email) (lib.lower email)) d.users)
    row_or row (not_found_error "user with email %s not found" other_cause)

  -- `Login` behind its lookup: the access and the refresh token.
  unfoldable pub login_as : User → String → String → String → M (Token × Token)
  login_as user password ip_address user_agent = do
    raise_if (str_eq user.password "") (
        unauthorized_error "this account uses Google sign-in; please continue with Google" no_cause)
    raise_if (not (lib.compare_hash_and_password user.password password))
        (unauthorized_error "invalid credentials" other_cause)
    refresh ← new_session user.id ip_address user_agent
    access ← access_for user.id
    pure (access, refresh)

  -- `Login`
  unfoldable pub login : String → String → String → String → M (Token × Token)
  login identifier password ip_address user_agent = do
    user ←
        map_error
          (if has_at identifier
            then get_by_email identifier
            else get_by_username lib.lower identifier)
          (λ e. not_found_error "user not found" other_cause)
    login_as user password ip_address user_agent

  abbrev pub begin_attempt : ℕ → ℕ → String → String → Result (Unit {0}) → World → Attempt × World
  begin_attempt session_id user_id remote_addr user_agent (err e) w = (failed e, w)
  begin_attempt session_id user_id remote_addr user_agent (ok _) w =
      let (r, w') =
        (do
          active ← get_current_active_token session_id
          token ← issue_refresh_token user_id session_id remote_addr user_agent
          pure (active, token))
          w in
      rotate_attempt w.db r w'

  unfoldable pub attempt : ℕ → ℕ → String → String → World → Attempt × World
  attempt session_id user_id remote_addr user_agent w =
      let (r, w') = reach w in begin_attempt session_id user_id remote_addr user_agent r w'

  -- `for attempt := 0; attempt < 3; attempt++`, over the rounds that are left.
  unfoldable pub rotate_rounds : ℕ → ℕ → ℕ → String → String → M (Token × Token)
  rotate_rounds zero session_id user_id remote_addr user_agent w = (err session_expired_answer, w)
  rotate_rounds (suc n) session_id user_id remote_addr user_agent w =
      let again = rotate_rounds n session_id user_id remote_addr user_agent in
      let (t, w') = attempt session_id user_id remote_addr user_agent w in
      elim t [
        | rotated token ↦ (do access ← access_for user_id; pure (access, token)) w'
        | failed e ↦ (err e, w')
        | lost e ↦ (if is e not_found && ltb 0 n then again else raise e) w'
      ]

  -- `rotateCurrentActiveToken`
  unfoldable pub rotate_current_active_token : ℕ → ℕ → String → String → M (Token × Token)
  rotate_current_active_token = rotate_rounds 3

  -- A revoked token is presented.
  unfoldable pub replay : RefreshToken → String → String → M (Token × Token)
  replay stored ip_address user_agent =
      if was_rotated stored.revoked_reason
      then (if same_device stored user_agent
          then map_error
              (rotate_current_active_token stored.session_id stored.user_id ip_address user_agent)
              (missing_as session_expired_answer)
          else (do
            revoke_session stored.session_id revoked_reason_theft
            raise session_expired_answer))
      else raise session_expired_answer

  -- The body of the transaction of `RefreshToken`.
  unfoldable pub succeed : ℕ → ℕ → String → String → String → M Token
  succeed user_id session_id token_hash ip_address user_agent = do
    token ← issue_refresh_token user_id session_id ip_address user_agent
    rotate_refresh_token token_hash
    pure token

  -- An active token is presented: its successor is inserted and it is retired in one transaction.
  unfoldable pub rotate : RefreshToken → Claims → String → String → M (Token × Token)
  rotate stored claims ip_address user_agent = do
    user_id ←
        or_error (get_user_id_from_token claims)
          (λ e. unauthorized_error "invalid token" other_cause)
    get_by_id user_id
    new_refresh_token ←
        transaction (succeed user_id stored.session_id stored.token_hash ip_address user_agent)
    access ← access_for user_id
    pure (access, new_refresh_token)

  -- `RefreshToken`
  unfoldable pub refresh : String → String → String → M (Token × Token)
  refresh token_string ip_address user_agent = do
    claims ← λ w.
        or_error (validate_token lib a token_string refresh_token w.now) (λ e. refused_by e.err) w
    stored ←
        map_error (get_refresh_token (lib.hash_token token_string))
          (missing_as invalid_token_answer)
    if stored.revoked
        then replay stored ip_address user_agent
        else rotate stored claims ip_address user_agent

  -- What `Logout` does with the row it found, or without one.
  abbrev log_out_row : Result RefreshToken → M (Unit {0})
  log_out_row (ok stored) = revoke_session stored.session_id revoked_reason_logout
  log_out_row (err e) = if is e not_found then pure tt else raise e

  -- `Logout`
  unfoldable pub logout : String → M (Unit {0})
  logout token_string w =
      let (r, w') = get_refresh_token (lib.hash_token token_string) w in log_out_row r w'

  -- `GetUserIDFromRefreshToken`
  unfoldable pub get_user_id_from_refresh_token : String → M ℕ
  get_user_id_from_refresh_token token_string = do
    claims ← λ w.
        or_error (validate_token lib a token_string refresh_token w.now)
          (λ e. unauthorized_error "invalid token" other_cause) w
    stored ←
        map_error (get_refresh_token (lib.hash_token token_string))
          (missing_as invalid_token_answer)
    user_id ←
        or_error (get_user_id_from_token claims)
          (λ e. unauthorized_error "invalid token" other_cause)
    active ← session_has_active_token stored.session_id
    raise_if (not active) (unauthorized_error "session is not active" no_cause)
    get_by_id user_id
    pure user_id
