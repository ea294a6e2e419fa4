-- ===== src/Sessions/Runs.antt =====
-- Any history of logins, refreshes and logouts, counted in active tokens.
use gaggle.Prelude.{
  ℕ, zero, suc, ◌+◌, ◌≤◌, ◌≡◌, refl, inl, inr, if◌then◌else◌, Bool, String, List, [], ◌∷◌, arith,
  ◌==◌, str_eq, Bool-cases, Option-cases, find, count-append_one,
}
use gaggle.AppErrors.{Result, ok, err, Result-cases}
use gaggle.Database.{User, RefreshToken, World, reach, transaction}
use gaggle.Accounts.{get_by_id, get_by_username}
use gaggle.Sessions.Tokens.{
  Libraries, JwtAuthenticator, Token, Claims, generate_token, validate_token, refresh_token,
  get_user_id_from_token,
}
use gaggle.Sessions.Store.{
  has_hash, is_active, get_refresh_token, revoke_session, create_refresh_token,
  get_current_active_token, rotate_refresh_token,
}
use gaggle.Sessions.Service.{
  issue_refresh_token, new_session, succeed, attempt, rotate_rounds, rotate_current_active_token,
  replay, rotate, refresh, logout, login_as, login, get_by_email, has_at,
}
use gaggle.Sessions.Rows.{active_in}
use gaggle.Sessions.Family.{tokens, Quiet, Issues, issue-Issues, issued_row}
use gaggle.Sessions.Refresh.{refresh-Quiet, logout-Quiet}

module _ (lib : Libraries) (a : JwtAuthenticator) where
  -- The uuids that were drawn stay drawn.
  next-issue :
      (w : World) (u s : ℕ) (ip ua : String)
      → w.next_uuid ≤ (issue_refresh_token lib a u s ip ua w).1.next_uuid
  unfolding issue_refresh_token generate_token create_refresh_token reach
  next-issue w u s ip ua = ground arith

  next-rotate :
      (w : World) (stored : RefreshToken) (claims : Claims) (ip ua : String)
      → w.next_uuid ≤ (rotate lib a stored claims ip ua w).1.next_uuid
  unfolding rotate succeed transaction issue_refresh_token generate_token create_refresh_token reach
      rotate_refresh_token get_by_id get_user_id_from_token
  next-rotate w stored claims ip ua = ground arith

  next-attempt :
      (w : World) (s u : ℕ) (ip ua : String) → w.next_uuid ≤ (attempt lib a s u ip ua w).1.next_uuid
  unfolding attempt get_current_active_token rotate_refresh_token reach
  next-attempt w s u ip ua = ground (arith, next-issue (reach (reach w).1).1 u s ip ua)

  next-rounds :
      (n s u : ℕ) (ip ua : String) (w : World)
      → w.next_uuid ≤ (rotate_rounds lib a n s u ip ua w).1.next_uuid
  unfolding rotate_rounds generate_token
  next-rounds zero s u ip ua w = omega arith
  next-rounds (suc n) s u ip ua w =
      ground
        (arith, next-attempt w s u ip ua, next-rounds n s u ip ua (attempt lib a s u ip ua w).1)

  next-replay :
      (w : World) (stored : RefreshToken) (ip ua : String)
      → w.next_uuid ≤ (replay lib a stored ip ua w).1.next_uuid
  unfolding replay revoke_session reach rotate_current_active_token
  next-replay w stored ip ua =
      ground (arith, next-rounds 3 stored.session_id stored.user_id ip ua w)

  next-refresh :
      (w : World) (token_string ip ua : String)
      → w.next_uuid ≤ (refresh lib a token_string ip ua w).1.next_uuid
  unfolding refresh get_refresh_token reach
  next-refresh w token_string ip ua =
      elim (Result-cases (validate_token lib a token_string refresh_token w.now)) [
        | inr (x, bad) ↦ ground arith
        | inl (claims, valid) ↦
            elim (Option-cases (find (has_hash (lib.hash_token token_string)) (tokens w))) [
              | inl missing ↦ ground arith
              | inr (stored, found) ↦ ground (
                arith,
                next-replay (reach w).1 stored ip ua,
                next-rotate (reach w).1 stored claims ip ua,
              )
            ]
      ]

  next-logout :
      (w : World) (token_string : String) → w.next_uuid ≤ (logout lib a token_string w).1.next_uuid
  unfolding logout get_refresh_token revoke_session reach
  next-logout w token_string = ground arith

-- One active token for a session at most, and none for a session whose uuid was not drawn yet.
pub record IsSound (w : World) : Type 0 where
  pub one_active : (s : ℕ) → active_in s (tokens w) ≤ 1
  pub undrawn : (s : ℕ) → w.next_uuid ≤ s → active_in s (tokens w) ≡ 0

-- A call that adds no active token anywhere and draws uuids keeps that.
Quiet-IsSound :
    (w v : World) → Quiet (tokens w) (tokens v) → w.next_uuid ≤ v.next_uuid → IsSound w → IsSound v
Quiet-IsSound w v q n h = record {
  one_active = λ s. omega (arith, q s, h.one_active s);
  undrawn = λ s p. omega (arith, q s, h.undrawn s (omega arith));
}

-- What a client may send.
pub data Call : Type 0 where
  logs_in : String → String → String → String → Call
  refreshes : String → String → String → Call
  logs_out : String → Call

module _ (lib : Libraries) (a : JwtAuthenticator) where
  -- How a login ends, seen at a session `k`: one more active token at most, and that for a session
  -- whose uuid it drew.
  abbrev Opens : ℕ → World → World → Type 0
  Opens k w v =
      (w.next_uuid ≤ v.next_uuid)
      × (active_in k (tokens v) ≤ active_in k (tokens w) + (if k == w.next_uuid then 1 else 0))
      × (v.next_uuid ≤ k → active_in k (tokens v) ≤ active_in k (tokens w))

  Issues-Opens :
      (k : ℕ) (w v x : World) (u : ℕ) (ip ua : String) (r : Result Token)
      → x.db ≡ w.db
      → suc w.next_uuid ≤ v.next_uuid
      → Issues lib a x u w.next_uuid ip ua (r, v)
      → Opens k w v
  Issues-Opens k w v x u ip ua (err e) p n i = ground arith
  Issues-Opens k w v x u ip ua (ok t) p n i =
      ground (
        arith,
        count-append_one (is_active k) (tokens w) (issued_row lib a x u w.next_uuid ip ua t),
      )

  new_session-Opens :
      (k : ℕ) (w : World) (u : ℕ) (ip ua : String) → Opens k w (new_session lib a u ip ua w).1
  unfolding new_session
  new_session-Opens k w u ip ua =
      let x : World = record w { next_uuid = suc w.next_uuid } in
      Issues-Opens k w (issue_refresh_token lib a u w.next_uuid ip ua x).1 x u ip ua
        (issue_refresh_token lib a u w.next_uuid ip ua x).0 refl
        (next-issue lib a x u w.next_uuid ip ua) (issue-Issues lib a x u w.next_uuid ip ua)

  login_as-Opens :
      (k : ℕ) (w : World) (user : User) (password ip ua : String)
      → Opens k w (login_as lib a user password ip ua w).1
  unfolding login_as generate_token
  login_as-Opens k w user password ip ua = ground (arith, new_session-Opens k w user.id ip ua)

  login-Opens :
      (k : ℕ) (w : World) (identifier password ip ua : String)
      → Opens k w (login lib a identifier password ip ua w).1
  unfolding login get_by_email get_by_username reach
  login-Opens k w identifier password ip ua = elim (Bool-cases (has_at identifier)) [
    | inl e ↦
        elim (Option-cases
          (find (λ u. str_eq (lib.lower u.email) (lib.lower identifier)) w.db.users)) [
            | inl missing ↦ rw e (ground arith)
            | inr (user, found) ↦
                rw e (ground (arith, login_as-Opens k (reach w).1 user password ip ua))
          ]
    | inr n ↦
        elim (Option-cases
          (find (λ u. str_eq (lib.lower u.username) (lib.lower identifier)) w.db.users)) [
            | inl missing ↦ rw n (ground arith)
            | inr (user, found) ↦
                rw n (ground (arith, login_as-Opens k (reach w).1 user password ip ua))
          ]
  ]

  -- Each call, with the time at which it is made and what the database will do.
  pub serve : World → ℕ × List Bool × Call → World
  serve w (now, faults, logs_in identifier password ip ua) =
      (login lib a identifier password ip ua (record w { now = now; faults = faults })).1
  serve w (now, faults, refreshes token_string ip ua) =
      (refresh lib a token_string ip ua (record w { now = now; faults = faults })).1
  serve w (now, faults, logs_out token_string) =
      (logout lib a token_string (record w { now = now; faults = faults })).1

  pub serve_all : World → List (ℕ × List Bool × Call) → World
  serve_all w [] = w
  serve_all w (c ∷ cs) = serve_all (serve w c) cs

  login-IsSound :
      (w : World) (identifier password ip ua : String)
      → IsSound w
      → IsSound (login lib a identifier password ip ua w).1
  login-IsSound w identifier password ip ua h = record {
    one_active =
        λ s. ground (arith, login-Opens s w identifier password ip ua, h.one_active s, h.undrawn s);
    undrawn = λ s p. ground (arith, login-Opens s w identifier password ip ua, h.undrawn s);
  }

  serve-IsSound : (w : World) (c : ℕ × List Bool × Call) → IsSound w → IsSound (serve w c)
  unfolding serve
  serve-IsSound w (now, faults, logs_in identifier password ip ua) h =
      login-IsSound (record w { now = now; faults = faults }) identifier password ip ua
        (record { one_active = h.one_active; undrawn = h.undrawn })
  serve-IsSound w (now, faults, refreshes token_string ip ua) h =
      let v : World = record w { now = now; faults = faults } in
      Quiet-IsSound w (refresh lib a token_string ip ua v).1
        (refresh-Quiet lib a v token_string ip ua) (next-refresh lib a v token_string ip ua) h
  serve-IsSound w (now, faults, logs_out token_string) h =
      let v : World = record w { now = now; faults = faults } in
      Quiet-IsSound w (logout lib a token_string v).1 (logout-Quiet lib a v token_string)
        (next-logout lib a v token_string) h

  -- Let each session family have at most one active refresh token and a session whose uuid has not
  -- been drawn have none, as in empty tables. After any logins, refreshes and logouts, by anybody,
  -- at any times and wherever the database fails, that still holds.
  pub serve_all-IsSound :
      (w : World) (cs : List (ℕ × List Bool × Call)) → IsSound w → IsSound (serve_all w cs)
  unfolding serve_all
  serve_all-IsSound w [] h = h
  serve_all-IsSound w (c ∷ cs) h = serve_all-IsSound (serve w c) cs (serve-IsSound w c h)
