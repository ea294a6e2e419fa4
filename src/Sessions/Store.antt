-- ===== src/Sessions/Store.antt =====
-- server/internal/store/auth_store.go: the statements on refresh_tokens.
use gaggle.Prelude.{
  ℕ, suc, Bool, true, not, ◌&&◌, ◌||◌, String, List, [], ◌∷◌, ◌++◌, Option, none, some, ◌==◌, ltb,
  str_eq, if◌then◌else◌, find, select, update, any,
}
use gaggle.AppErrors.{ok, err, not_found_error, no_cause, other_cause}
use gaggle.Database.{
  RefreshToken, M, database_error, reach, query, statement, raise_if, ◌>>=◌, ◌>>◌,
}
use gaggle.Accounts.{row_or}

-- Reasons recorded on revoked refresh tokens (server/internal/models/auth.go).
abbrev pub revoked_reason_rotated : String
revoked_reason_rotated = "rotated"

abbrev pub revoked_reason_logout : String
revoked_reason_logout = "logout"

abbrev pub revoked_reason_theft : String
revoked_reason_theft = "theft"

abbrev pub has_hash : String → RefreshToken → Bool
has_hash h t = str_eq t.token_hash h

abbrev pub is_active : ℕ → RefreshToken → Bool
is_active session_id t = t.session_id == session_id && not t.revoked

abbrev pub revoke : ℕ → String → RefreshToken → RefreshToken
revoke now reason t = record t {
  revoked = true;
  revoked_at = some now;
  revoked_reason = some reason;
}

-- The INSERT of `CreateRefreshToken`: the address must be an INET and the user must exist. The
-- column refresh_token_id is a fresh uuid.
abbrev insert_token : (String → Bool) → RefreshToken → M (Unit {0})
insert_token is_inet t w =
    if not (is_inet t.ip_address) || not (any (λ u. u.id == t.user_id) w.db.users)
    then (err database_error, w)
    else (
      ok tt,
      record w {
        db = record w.db { refresh_tokens = w.db.refresh_tokens ++ t ∷ [] };
        next_uuid = suc w.next_uuid;
      },
    )

unfoldable pub create_refresh_token : (String → Bool) → RefreshToken → M (Unit {0})
create_refresh_token is_inet t = do
  reach
  λ w. insert_token is_inet (record t { refresh_token_id = w.next_uuid }) w

-- `GetRefreshToken`
unfoldable pub get_refresh_token : String → M RefreshToken
get_refresh_token hash = do
  row ← query (λ d. find (has_hash hash) d.refresh_tokens)
  row_or row (not_found_error "refresh token not found" other_cause)

-- `RotateRefreshToken`
unfoldable pub rotate_refresh_token : String → M (Unit {0})
rotate_refresh_token hash = do
  affected ← statement λ w. (
    any (λ t. has_hash hash t && not t.revoked) w.db.refresh_tokens,
    record w.db {
      refresh_tokens =
          update (λ t. has_hash hash t && not t.revoked) (revoke w.now revoked_reason_rotated)
            w.db.refresh_tokens;
    },
  )
  raise_if (not affected) (not_found_error "refresh token not found" no_cause)

-- ORDER BY issued_at DESC, refresh_token_id DESC LIMIT 1
abbrev newer : RefreshToken → RefreshToken → Bool
newer t u =
    ltb u.issued_at t.issued_at
    || (t.issued_at == u.issued_at && ltb u.refresh_token_id t.refresh_token_id)

abbrev pub newest : List RefreshToken → Option RefreshToken
newest [] = none
newest (t ∷ ts) = elim (newest ts) [ none ↦ some t | some u ↦ if newer u t then some u else some t ]

-- `GetCurrentActiveToken`
unfoldable pub get_current_active_token : ℕ → M RefreshToken
get_current_active_token session_id = do
  row ← query (λ d. newest (select (is_active session_id) d.refresh_tokens))
  row_or row (not_found_error "no active refresh token in session" other_cause)

-- `RevokeSession`; COALESCE keeps an earlier time, which an active token does not have.
abbrev pub revoke_at : ℕ → String → RefreshToken → RefreshToken
revoke_at now reason t = record t {
  revoked = true;
  revoked_at = elim t.revoked_at [ none ↦ some now | some at ↦ some at ];
  revoked_reason = some reason;
}

unfoldable pub revoke_session : ℕ → String → M (Unit {0})
revoke_session session_id reason = statement λ w. (
  tt,
  record w.db {
    refresh_tokens = update (is_active session_id) (revoke_at w.now reason) w.db.refresh_tokens;
  },
)

-- `SessionHasActiveToken`
unfoldable pub session_has_active_token : ℕ → M Bool
session_has_active_token session_id = query λ d. any (is_active session_id) d.refresh_tokens
