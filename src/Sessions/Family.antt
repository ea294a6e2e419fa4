-- ===== src/Sessions/Family.antt =====
-- What each call of the service does to the number of active tokens of every session family.
use mathlib.Core.Path.{subst}
use gaggle.Prelude.{
  ◌∙◌, ℕ, zero, suc, ◌≤◌, ◌≡◌, refl, inl, inr, true, false, ◌&&◌, String, List, [], ◌∷◌, ◌++◌, none,
  arith, ◌==◌, Bool-cases, Option-cases, select, any, any-append_one, ==_iff, count-append_one,
}
use gaggle.AppErrors.{AppError, Result, ok, err}
use gaggle.Database.{
  RefreshToken, Db, World, reach, transaction, pure, continue, ◌>>◌, transaction_keeps, db-reach,
}
use gaggle.Accounts.{get_by_id}
use gaggle.Sessions.Tokens.{
  Libraries, JwtAuthenticator, Token, Claims, claims_of, refresh_token, access_token,
  generate_token, get_user_id_from_token,
}
use gaggle.Sessions.Store.{
  has_hash, is_active, create_refresh_token, rotate_refresh_token, get_current_active_token, newest,
}
use gaggle.Sessions.Service.{
  rotate_attempt, issue_refresh_token, map_error, or_error, succeed, attempt, rotate_rounds, rotate,
  fit_column, strip_port,
}
use gaggle.Sessions.Rows.{
  active_in, retire, active_in-retire-le, active_in-retire-lt, newest_active,
}

abbrev pub tokens : World → List RefreshToken
tokens w = w.db.refresh_tokens

-- No session has more active tokens than it had.
abbrev pub Quiet : List RefreshToken → List RefreshToken → Type 0
Quiet ts ts' = (s : ℕ) → active_in s ts' ≤ active_in s ts

pub Quiet-refl : (ts : List RefreshToken) → Quiet ts ts
Quiet-refl ts s = omega arith

Quiet-trans : (ts us vs : List RefreshToken) → Quiet ts us → Quiet us vs → Quiet ts vs
Quiet-trans ts us vs h k s = omega (arith, h s, k s)

-- A successor in the family of an active token that is retired with it.
Quiet-rotation :
    (s : ℕ) (h : String) (now : ℕ) (ts : List RefreshToken) (row : RefreshToken)
    → row.session_id ≡ s
    → any (λ t. has_hash h t && is_active s t) ts ≡ true
    → Quiet ts (retire h now (ts ++ row ∷ []))
Quiet-rotation s h now ts row e k r = elim (Bool-cases (r == s)) [
  | inl same ↦
      let q : r ≡ s = (==_iff r s).0 same in
      rw q (
        ground (
          arith,
          active_in-retire-lt s h now (ts ++ row ∷ []),
          any-append_one (λ t. has_hash h t && is_active s t) ts row,
          count-append_one (is_active s) ts row,
        ))
  | inr other ↦
      ground
        (arith, active_in-retire-le r h now (ts ++ row ∷ []), count-append_one (is_active r) ts row)
]

pub db-or_error :
    {A : Type 0} (r : Result A) (f : AppError → AppError) (w : World) → (or_error r f w).1.db ≡ w.db
db-or_error (ok x) f w = refl
db-or_error (err x) f w = refl

pub db-get_by_id : (id : ℕ) (w : World) → (get_by_id id w).1.db ≡ w.db
unfolding get_by_id reach
db-get_by_id id w = ground arith

module _ (lib : Libraries) (a : JwtAuthenticator) where
  -- The row that a refresh token is stored in.
  abbrev pub issued_row : World → ℕ → ℕ → String → String → Token → RefreshToken
  issued_row w user_id session_id remote_addr user_agent token = record {
    refresh_token_id = suc w.next_uuid;
    session_id = session_id;
    user_id = user_id;
    token_hash = lib.hash_token token.token_string;
    issued_at = token.issued_at;
    expires_at = token.expires_at;
    revoked = false;
    revoked_at = none;
    revoked_reason = none;
    user_agent = fit_column user_agent;
    ip_address = strip_port remote_addr;
  }

  -- A failed issue changes no table, and a successful one adds the token's row.
  abbrev pub Issues : World → ℕ → ℕ → String → String → Result Token × World → Type 0
  Issues w u s ip ua (err e, w') = (w'.db ≡ w.db) × (w'.now ≡ w.now)
  Issues w u s ip ua (ok token, w') =
      (w'.db ≡ record w.db { refresh_tokens = tokens w ++ issued_row w u s ip ua token ∷ [] })
      × (w'.now ≡ w.now)

  pub issue-Issues :
      (w : World) (u s : ℕ) (ip ua : String)
      → Issues w u s ip ua (issue_refresh_token lib a u s ip ua w)
  unfolding issue_refresh_token generate_token create_refresh_token reach
  issue-Issues w u s ip ua =
      elim (Option-cases
        (lib.signed_string a.secret (claims_of lib a u refresh_token w.now w.next_uuid))) [
          | inl none_signed ↦ rw none_signed (refl, refl)
          | inr (str, signed) ↦ rw signed (ground arith)
        ]

  -- The body of a rotation that returns.
  after_issue :
      (w v : World) (u s : ℕ) (h ip ua : String) (r : Result Token)
      → any (λ t. has_hash h t && is_active s t) (tokens w) ≡ true
      → Issues w u s ip ua (r, v)
      → (token : Token)
      → (continue r (λ token. rotate_refresh_token h >> pure token) v).0 ≡ ok token
      → Quiet (tokens w) (tokens (continue r (λ token. rotate_refresh_token h >> pure token) v).1)
  unfolding rotate_refresh_token reach
  after_issue w v u s h ip ua (err x) e i token k r = cc
  after_issue w v u s h ip ua (ok t) e i token k r =
      ground (arith, Quiet-rotation s h v.now (tokens w) (issued_row w u s ip ua t) refl e r)

  succeed-Quiet :
      (w : World) (u s : ℕ) (h ip ua : String) (token : Token)
      → any (λ t. has_hash h t && is_active s t) (tokens w) ≡ true
      → (succeed lib a u s h ip ua w).0 ≡ ok token
      → Quiet (tokens w) (tokens (succeed lib a u s h ip ua w).1)
  unfolding succeed
  succeed-Quiet w u s h ip ua token e k =
      after_issue w (issue_refresh_token lib a u s ip ua w).1 u s h ip ua
        (issue_refresh_token lib a u s ip ua w).0 e (issue-Issues w u s ip ua) token k

  pub db-access :
      (u : ℕ) (f : AppError → AppError) (w : World)
      → (map_error (generate_token lib a u access_token) f w).1.db ≡ w.db
  unfolding generate_token
  db-access u f w = ground arith

  -- The rotation that the three calls share, from any world with these tables.
  pub rotation_keeps :
      (w : World) (d : Db) (u s : ℕ) (h ip ua : String)
      → w.db ≡ d
      → any (λ t. has_hash h t && is_active s t) d.refresh_tokens ≡ true
      → Quiet d.refresh_tokens (tokens (transaction (succeed lib a u s h ip ua) w).1)
  rotation_keeps w d u s h ip ua p e =
      transaction_keeps (λ x. Quiet d.refresh_tokens x.refresh_tokens) (succeed lib a u s h ip ua) w
        (rw p (Quiet-refl d.refresh_tokens))
        λ v q token k.
          let r : v.db ≡ d = q ∙ p in
          subst (λ x. Quiet x.refresh_tokens (tokens (succeed lib a u s h ip ua v).1)) r
            (succeed-Quiet v u s h ip ua token (rw r e) k)

  pub rotate-Quiet :
      (w : World) (stored : RefreshToken) (claims : Claims) (ip ua : String)
      → any (λ t. has_hash stored.token_hash t && is_active stored.session_id t) (tokens w) ≡ true
      → Quiet (tokens w) (tokens (rotate lib a stored claims ip ua w).1)
  unfolding rotate get_user_id_from_token get_by_id reach generate_token
  rotate-Quiet w stored claims ip ua e s = elim (Option-cases claims.sub) [
    | inl missing ↦ ground arith
    | inr (u, there) ↦ ground (
      arith,
      rotation_keeps (reach w).1 w.db u stored.session_id stored.token_hash ip ua (db-reach w) e s,
    )
  ]

  -- A round of the loop that has found the family's newest active token.
  attempt_end :
      (w v : World) (d : Db) (u s : ℕ) (ip ua : String) (t : RefreshToken) (r : Result Token)
      → w.db ≡ d
      → any (λ x. has_hash t.token_hash x && is_active s x) d.refresh_tokens ≡ true
      → Issues w u s ip ua (r, v)
      → Quiet d.refresh_tokens (
          tokens
            (let (r', v') = continue r (λ token. pure (t, token)) v in rotate_attempt d r' v').1)
  unfolding rotate_refresh_token reach
  attempt_end w v d u s ip ua t (err x) p e i k = ground arith
  attempt_end w v d u s ip ua t (ok token) p e i k = ground (
    arith,
    Quiet-rotation s t.token_hash v.now d.refresh_tokens (issued_row w u s ip ua token) refl e k,
  )

  pub attempt-Quiet :
      (w : World) (s u : ℕ) (ip ua : String)
      → Quiet (tokens w) (tokens (attempt lib a s u ip ua w).1)
  unfolding attempt get_current_active_token reach
  attempt-Quiet w s u ip ua k =
      let v : World = (reach (reach w).1).1 in
      elim (Option-cases (newest (select (is_active s) (tokens w)))) [
        | inl nobody ↦ ground arith
        | inr (t, found) ↦ ground (
          arith,
          attempt_end v (issue_refresh_token lib a u s ip ua v).1 w.db u s ip ua t
              (issue_refresh_token lib a u s ip ua v).0 refl (newest_active s t (tokens w) found)
              (issue-Issues v u s ip ua) k,
        )
      ]

  pub rotate_rounds-Quiet :
      (n s u : ℕ) (ip ua : String) (w : World)
      → Quiet (tokens w) (tokens (rotate_rounds lib a n s u ip ua w).1)
  unfolding rotate_rounds generate_token
  rotate_rounds-Quiet zero s u ip ua w k = omega arith
  rotate_rounds-Quiet (suc n) s u ip ua w k = ground (
    arith,
    attempt-Quiet w s u ip ua k,
    rotate_rounds-Quiet n s u ip ua (attempt lib a s u ip ua w).1 k,
  )
