-- ===== src/Sessions/Endings.antt =====
-- How a session ends, and how it goes on: a stolen token, a stale token, logout, and rotation.
use gaggle.Prelude.{
  ℕ, ◌≡◌, refl, ◌⊎◌, inl, inr, true, false, String, List, [], ◌∷◌, none, some, arith, ◌==◌, str_eq,
  Option-cases, find, any, All₂,
}
use gaggle.AppErrors.{Result, ok, err}
use gaggle.Database.{RefreshToken, World, reach, db-reach, database_error, Ends, Ends-map, Db}
use gaggle.Accounts.{get_by_id, get_by_username}
use gaggle.Sessions.Tokens.{
  Libraries, JwtAuthenticator, Token, Claims, generate_token, validate_token, refresh_token,
}
use gaggle.Sessions.Store.{
  has_hash, is_active, get_refresh_token, revoke_session, session_has_active_token,
  revoked_reason_theft, create_refresh_token,
}
use gaggle.Sessions.Service.{
  issue_refresh_token, new_session, replay, refresh, logout, login, login_as, get_by_email,
  was_rotated, same_device, fit_column, strip_port, get_user_id_from_refresh_token,
  session_expired_answer,
}
use gaggle.Sessions.Rows.{active_in, end_session, active_in-end_session, active_in-end_session_ne}
use gaggle.Sessions.Family.{tokens}

-- The family `s` is over, and no other family has changed.
pub record Over (s : ℕ) (ts ts' : List RefreshToken) : Type 0 where
  pub nobody : active_in s ts' ≡ 0
  pub others : (r : ℕ) → (r == s) ≡ false → active_in r ts' ≡ active_in r ts

end_session-Over :
    (s : ℕ) (reason : String) (now : ℕ) (ts : List RefreshToken)
    → Over s ts (end_session s reason now ts)
end_session-Over s reason now ts = record {
  nobody = active_in-end_session s reason now ts;
  others = λ r. active_in-end_session_ne s r reason now ts;
}

-- What becomes of a token where the family `s` ends: an active one of the family is revoked for the
-- reason, and one of another family or revoked before is as it was.
pub record Revokes (s : ℕ) (reason : String) (now : ℕ) (t u : RefreshToken) : Type 0 where
  pub active :
      (t.session_id == s) ≡ true
      → t.revoked ≡ false
      → u ≡ record t {
        revoked = true;
        revoked_at = elim t.revoked_at [ none ↦ some now | some at ↦ some at ];
        revoked_reason = some reason;
      }
  pub other_family : (t.session_id == s) ≡ false → u ≡ t
  pub revoked_before : t.revoked ≡ true → u ≡ t

end_session-Revokes :
    (s : ℕ) (reason : String) (now : ℕ) (ts : List RefreshToken)
    → All₂ (Revokes s reason now) ts (end_session s reason now ts)
end_session-Revokes s reason now [] = tt
end_session-Revokes s reason now (t ∷ ts) = (
  record {
    active = λ here live. rw (here, live) refl;
    other_family = λ h. rw h refl;
    revoked_before = λ h. ground (arith, h);
  },
  end_session-Revokes s reason now ts,
)

-- After a logout of the family `s`: it is over, every token is revoked by it or as it was, and no
-- other table has changed.
pub record LoggedOut (w : World) (s : ℕ) (d : Db) : Type 0 where
  pub over : Over s (tokens w) d.refresh_tokens
  pub rows : All₂ (Revokes s "logout" w.now) (tokens w) d.refresh_tokens
  pub nothing_else : d ≡ record w.db { refresh_tokens = d.refresh_tokens }

none_active : (s : ℕ) (ts : List RefreshToken) → active_in s ts ≡ 0 → any (is_active s) ts ≡ false
none_active s [] h = refl
none_active s (t ∷ ts) h = ground (arith, none_active s ts)

module _ (lib : Libraries) (a : JwtAuthenticator) where
  -- The call fails at the database and changes no table, or answers SESSION_EXPIRED with the
  -- family over.
  abbrev pub Stolen : World → ℕ → Result (Token × Token) × World → Type 0
  Stolen w s (ok t, v) = ⊥
  Stolen w s (err e, v) =
      ((e ≡ database_error) × (v.db ≡ w.db))
      ⊎ ((e ≡ session_expired_answer) × Over s (tokens w) (tokens v))

  replay-Stolen :
      (w v : World) (stored : RefreshToken) (ip ua : String)
      → v.db ≡ w.db
      → was_rotated stored.revoked_reason ≡ true
      → same_device stored ua ≡ false
      → Stolen w stored.session_id (replay lib a stored ip ua v)
  unfolding replay revoke_session reach
  replay-Stolen w v stored ip ua p rotated other =
      ground (arith, end_session-Over stored.session_id revoked_reason_theft v.now (tokens w))

  -- Theft: a valid token that was rotated away is replayed from another device. Then either the
  -- database fails and nothing changes, or the answer is SESSION_EXPIRED, no token of that family
  -- is active any more, and every other family has as many active tokens as before.
  pub theft :
      (w : World) (token_string ip ua : String) (claims : Claims) (stored : RefreshToken)
      → validate_token lib a token_string refresh_token w.now ≡ ok claims
      → find (has_hash (lib.hash_token token_string)) (tokens w) ≡ some stored
      → stored.revoked ≡ true
      → was_rotated stored.revoked_reason ≡ true
      → same_device stored ua ≡ false
      → Stolen w stored.session_id (refresh lib a token_string ip ua w)
  unfolding refresh get_refresh_token reach
  theft w token_string ip ua claims stored valid found old rotated other =
      ground (arith, replay-Stolen w (reach w).1 stored ip ua (db-reach w) rotated other)

  -- A rotated token that is replayed with a user agent too long for the column, whose first 255
  -- bytes are the stored one, is treated as stolen: either the database fails and nothing changes,
  -- or the answer is SESSION_EXPIRED and no token of the family is active any more.
  pub long_user_agent :
      (w : World) (token_string ip ua : String) (claims : Claims) (stored : RefreshToken)
      → validate_token lib a token_string refresh_token w.now ≡ ok claims
      → find (has_hash (lib.hash_token token_string)) (tokens w) ≡ some stored
      → stored.revoked ≡ true
      → was_rotated stored.revoked_reason ≡ true
      → stored.user_agent ≡ fit_column ua
      → str_eq (fit_column ua) ua ≡ false
      → Stolen w stored.session_id (refresh lib a token_string ip ua w)
  long_user_agent w token_string ip ua claims stored valid found old rotated same long =
      theft w token_string ip ua claims stored valid found old rotated (ground arith)

  logout-db :
      (w : World) (token_string : String) (stored : RefreshToken)
      → find (has_hash (lib.hash_token token_string)) (tokens w) ≡ some stored
      → Ends w
          (λ _ d. d ≡ record w.db {
            refresh_tokens = end_session stored.session_id "logout" w.now (tokens w);
          })
          (logout lib a token_string w)
  unfolding logout get_refresh_token revoke_session reach
  logout-db w token_string stored found = ground (arith, found)

  -- Logout wherever the database fails: an error leaves the tables. After a success no token of the
  -- family of the presented token is active, those that were are revoked at this time by a logout,
  -- and every token of another family, every token revoked before and every other table is as it
  -- was; a token that nobody stored is a success that changes nothing.
  pub logout-Ends :
      (w : World) (token_string : String)
      → Ends w
          (λ _ d. elim (find (has_hash (lib.hash_token token_string)) (tokens w)) [
            | none ↦ d ≡ w.db
            | some stored ↦ LoggedOut w stored.session_id d
          ])
          (logout lib a token_string w)
  unfolding logout get_refresh_token revoke_session reach
  logout-Ends w token_string =
      elim (Option-cases (find (has_hash (lib.hash_token token_string)) (tokens w))) [
        | inl missing ↦ rw missing (ground arith)
        | inr (stored, found) ↦ rw found (
            Ends-map w (logout lib a token_string w)
              (λ _ d e. rw e (record {
                over = end_session-Over stored.session_id "logout" w.now (tokens w);
                rows = end_session-Revokes stored.session_id "logout" w.now (tokens w);
                nothing_else = refl;
              }))
              (logout-db w token_string stored found))
      ]

  -- A family with no active token opens no stream: whatever token of it is presented, and whatever
  -- the database does, the check returns an error.
  pub stream_refused :
      (w : World) (token_string : String) (stored : RefreshToken)
      → find (has_hash (lib.hash_token token_string)) (tokens w) ≡ some stored
      → active_in stored.session_id (tokens w) ≡ 0
      → Ends w (λ _ _. ⊥) (get_user_id_from_refresh_token lib a token_string w)
  unfolding get_user_id_from_refresh_token get_refresh_token session_has_active_token get_by_id
      reach
  stream_refused w token_string stored found over =
      ground (arith, found, none_active stored.session_id (tokens w) over)

  -- A client whose address, cut at its first colon, does not read as an INET can never log in:
  -- whatever the database does, the call returns an error and changes no table.
  pub login_address :
      (w : World) (identifier password ip ua : String)
      → lib.is_inet (strip_port ip) ≡ false
      → Ends w (λ _ _. ⊥) (login lib a identifier password ip ua w)
  unfolding login login_as new_session issue_refresh_token generate_token create_refresh_token
      get_by_email get_by_username reach
  login_address w identifier password ip ua bad = ground arith
