-- ===== src/Sessions/Rows.antt =====
-- What the statements of auth_store.go do to the number of active tokens of a session.
use gaggle.Prelude.{
  ℕ, ◌+◌, ◌≤◌, ◌≡◌, refl, true, false, not, ◌&&◌, String, List, [], ◌∷◌, some, arith, ◌==◌,
  str_eq_refl, find, select, count, update, any,
}
use gaggle.Database.{RefreshToken}
use gaggle.Sessions.Store.{has_hash, is_active, revoke, revoke_at, revoked_reason_rotated, newest}

abbrev pub active_in : ℕ → List RefreshToken → ℕ
active_in s ts = count (is_active s) ts

-- The UPDATE of `RotateRefreshToken`.
abbrev pub retire : String → ℕ → List RefreshToken → List RefreshToken
retire h now = update (λ t. has_hash h t && not t.revoked) (revoke now revoked_reason_rotated)

-- The UPDATE of `RevokeSession`.
abbrev pub end_session : ℕ → String → ℕ → List RefreshToken → List RefreshToken
end_session s reason now = update (is_active s) (revoke_at now reason)

pub active_in-retire-le :
    (s : ℕ) (h : String) (now : ℕ) (ts : List RefreshToken)
    → active_in s (retire h now ts) ≤ active_in s ts
active_in-retire-le s h now [] = omega arith
active_in-retire-le s h now (t ∷ ts) = ground (arith, active_in-retire-le s h now ts)

-- Retiring a hash that an active token of the session has takes one at least.
pub active_in-retire-lt :
    (s : ℕ) (h : String) (now : ℕ) (ts : List RefreshToken)
    → any (λ t. has_hash h t && is_active s t) ts ≡ true
    → active_in s (retire h now ts) + 1 ≤ active_in s ts
active_in-retire-lt s h now [] e = ground arith
active_in-retire-lt s h now (t ∷ ts) e =
    ground (arith, active_in-retire-lt s h now ts, active_in-retire-le s h now ts)

pub active_in-end_session :
    (s : ℕ) (reason : String) (now : ℕ) (ts : List RefreshToken)
    → active_in s (end_session s reason now ts) ≡ 0
active_in-end_session s reason now [] = refl
active_in-end_session s reason now (t ∷ ts) = ground (arith, active_in-end_session s reason now ts)

pub active_in-end_session_ne :
    (s r : ℕ) (reason : String) (now : ℕ) (ts : List RefreshToken)
    → (r == s) ≡ false
    → active_in r (end_session s reason now ts) ≡ active_in r ts
active_in-end_session_ne s r reason now [] n = refl
active_in-end_session_ne s r reason now (t ∷ ts) n =
    ground (arith, active_in-end_session_ne s r reason now ts n)

pub found_active :
    (s : ℕ) (h : String) (t : RefreshToken) (ts : List RefreshToken)
    → find (has_hash h) ts ≡ some t
    → is_active s t ≡ true
    → any (λ x. has_hash h x && is_active s x) ts ≡ true
found_active s h t [] e k = ground arith
found_active s h t (x ∷ ts) e k = ground (arith, found_active s h t ts)

pub newest_active :
    (s : ℕ) (t : RefreshToken) (ts : List RefreshToken)
    → newest (select (is_active s) ts) ≡ some t
    → any (λ x. has_hash t.token_hash x && is_active s x) ts ≡ true
newest_active s t [] e = ground arith
newest_active s t (x ∷ ts) e = ground (arith, newest_active s t ts, str_eq_refl t.token_hash)
