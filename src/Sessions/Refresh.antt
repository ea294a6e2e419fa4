-- ===== src/Sessions/Refresh.antt =====
-- Refresh and logout as a whole, counted in active tokens.
use mathlib.Core.Path.{subst}
use gaggle.Prelude.{
  ℕ, ◌≡◌, inl, inr, true, false, String, List, [], ◌∷◌, some, arith, ◌==◌, str_eq, str_eq_iff,
  ==_iff, Bool-cases, Option-cases, find,
}
use gaggle.AppErrors.{Result-cases}
use gaggle.Database.{RefreshToken, World, reach, db-reach}
use gaggle.Sessions.Tokens.{Libraries, JwtAuthenticator, Claims, validate_token, refresh_token}
use gaggle.Sessions.Store.{has_hash, is_active, get_refresh_token, revoke_session}
use gaggle.Sessions.Service.{replay, rotate, refresh, logout, rotate_current_active_token}
use gaggle.Sessions.Rows.{
  end_session, active_in-end_session, active_in-end_session_ne, found_active,
}
use gaggle.Sessions.Family.{tokens, Quiet, rotate-Quiet, rotate_rounds-Quiet}

end_session-Quiet :
    (s : ℕ) (reason : String) (now : ℕ) (ts : List RefreshToken)
    → Quiet ts (end_session s reason now ts)
end_session-Quiet s reason now ts r = elim (Bool-cases (r == s)) [
  | inl same ↦ rw ((==_iff r s).0 same) (omega (arith, active_in-end_session s reason now ts))
  | inr other ↦ omega (arith, active_in-end_session_ne s r reason now ts other)
]

found_hash :
    (h : String) (t : RefreshToken) (ts : List RefreshToken)
    → find (has_hash h) ts ≡ some t
    → str_eq t.token_hash h ≡ true
found_hash h t [] e = cc
found_hash h t (x ∷ ts) e = ground (arith, found_hash h t ts)

module _ (lib : Libraries) (a : JwtAuthenticator) where
  replay-Quiet :
      (w : World) (stored : RefreshToken) (ip ua : String)
      → Quiet (tokens w) (tokens (replay lib a stored ip ua w).1)
  unfolding replay revoke_session reach rotate_current_active_token
  replay-Quiet w stored ip ua k = ground (
    arith,
    rotate_rounds-Quiet lib a 3 stored.session_id stored.user_id ip ua w k,
    end_session-Quiet stored.session_id "theft" w.now (tokens w) k,
  )

  rotate-Quiet_found :
      (w v : World) (h : String) (stored : RefreshToken) (claims : Claims) (ip ua : String)
      → v.db ≡ w.db
      → find (has_hash h) (tokens w) ≡ some stored
      → stored.revoked ≡ false
      → Quiet (tokens w) (tokens (rotate lib a stored claims ip ua v).1)
  rotate-Quiet_found w v h stored claims ip ua p e live =
      let same : stored.token_hash ≡ h =
        (str_eq_iff stored.token_hash h).0 (found_hash h stored (tokens w) e) in
      let here : is_active stored.session_id stored ≡ true = ground arith in
      subst (λ d. Quiet d.refresh_tokens (tokens (rotate lib a stored claims ip ua v).1)) p
        (rotate-Quiet lib a v stored claims ip ua
          (rw (same, p) (found_active stored.session_id h stored (tokens w) e here)))

  -- A refresh, however it ends, adds no active token to any session: not on an error or a failure
  -- of the database at any statement, not when an old token is replayed, and not when the token is
  -- rotated.
  pub refresh-Quiet :
      (w : World) (token_string ip ua : String)
      → Quiet (tokens w) (tokens (refresh lib a token_string ip ua w).1)
  unfolding refresh get_refresh_token reach
  refresh-Quiet w token_string ip ua k =
      let h : String = lib.hash_token token_string in
      let v : World = (reach w).1 in
      elim (Result-cases (validate_token lib a token_string refresh_token w.now)) [
        | inr (x, bad) ↦ ground arith
        | inl (claims, valid) ↦ elim (Option-cases (find (has_hash h) (tokens w))) [
          | inl missing ↦ ground arith
          | inr (stored, found) ↦ elim (Bool-cases stored.revoked) [
            | inl old ↦ ground (arith, replay-Quiet v stored ip ua k)
            | inr live ↦
                ground
                  (arith, rotate-Quiet_found w v h stored claims ip ua (db-reach w) found live k)
          ]
        ]
      ]

  pub logout-Quiet :
      (w : World) (token_string : String)
      → Quiet (tokens w) (tokens (logout lib a token_string w).1)
  unfolding logout get_refresh_token revoke_session reach
  logout-Quiet w token_string k =
      elim (Option-cases (find (has_hash (lib.hash_token token_string)) (tokens w))) [
        | inl missing ↦ ground arith
        | inr (stored, found) ↦
            ground (arith, end_session-Quiet stored.session_id "logout" w.now (tokens w) k)
      ]
