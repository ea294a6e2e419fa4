-- ===== src/Middleware/Passing.antt =====
-- Who gets past the token gate.
use mathlib.Core.Path.{subst}
use gaggle.Prelude.{
  ℕ, sym, ◌≡◌, ◌⊎◌, refl, inl, inr, false, String, List, [], ◌∷◌, some, arith, ◌==◌, str_eq,
  str_eq_iff, Bool-cases, find,
}
use gaggle.AppErrors.{AppError, ok, err, no_cause, unauthorized_error, Result-cases}
use gaggle.Database.{User, World, M, reach}
use gaggle.Accounts.{get_by_id}
use gaggle.Sessions.{
  Libraries, JwtAuthenticator, Claims, access_token, validate_token, get_user_id_from_token,
}
use gaggle.Middleware.Gates.{split_spaces, bearer, wrapped, auth_token_middleware}

bearer_lem :
    (parts : List String) (token : String) → bearer parts ≡ ok token → parts ≡ "Bearer" ∷ token ∷ []
bearer_lem [] token h = ground arith
bearer_lem (scheme ∷ []) token h = ground arith
bearer_lem (scheme ∷ t ∷ p ∷ parts) token h = ground arith
bearer_lem (scheme ∷ t ∷ []) token h = ground (arith, str_eq_iff scheme "Bearer")

found_lem :
    (id : ℕ) (users : List User) (u : User) → find (λ v. v.id == id) users ≡ some u → u.id ≡ id
found_lem id [] u h = ground arith
found_lem id (v ∷ users) u h = ground (arith, found_lem id users u)

get_by_id_db : (id : ℕ) (w : World) → (get_by_id id w).1.db ≡ w.db
unfolding get_by_id reach
get_by_id_db id w = ground arith

get_by_id_lem :
    (id : ℕ) (w : World) (u : User)
    → (get_by_id id w).0 ≡ ok u
    → find (λ v. v.id == id) w.db.users ≡ some u
unfolding get_by_id reach
get_by_id_lem id w u h = ground arith

-- A header whose two parts are the scheme and an access token that validates, and the token's user,
-- who is there and not deleted.
pub record Admits (lib : Libraries) (a : JwtAuthenticator) (header : String) (w : World) (u : User)
    : Type 0 where
  pub token : String
  pub claims : Claims
  pub parts : split_spaces header ≡ "Bearer" ∷ token ∷ []
  pub valid : validate_token lib a token access_token w.now ≡ ok claims
  pub subject : get_user_id_from_token claims ≡ ok u.id
  pub row : find (λ v. v.id == u.id) w.db.users ≡ some u
  pub active : u.soft_deleted ≡ false

module _ {A : Type 0} (lib : Libraries) (a : JwtAuthenticator) (header : String)
    (next : User → M A) where
  -- What the gate does on every branch: it answers with an error, leaves the tables as they are and
  -- does not run the handler, or it runs the handler, on the same tables, for a user that is there
  -- and not deleted, and whose valid access token the header holds.
  pub auth-Admits :
      (w : World)
      → (((e : AppError) × (v : World) × (auth_token_middleware lib a header next w ≡ (err e, v))
          × (v.db ≡ w.db)))
        ⊎ ((u : User) × (v : World) × Admits lib a header w u
            × (auth_token_middleware lib a header next w ≡ next u v)
            × (v.db ≡ w.db))
  unfolding auth_token_middleware
  auth-Admits w = elim (Bool-cases (str_eq header "")) [
    | inl blank ↦
        inl (unauthorized_error "authorization header missing" no_cause, w, rw blank refl, refl)
    | inr given ↦ elim (Result-cases (bearer (split_spaces header))) [
      | inr (e, bad) ↦ inl (e, w, rw (given, bad) refl, refl)
      | inl (token, parts) ↦ elim (Result-cases (validate_token lib a token access_token w.now)) [
        | inr (e, bad) ↦ inl (
          unauthorized_error "token expired or invalid" (wrapped e.err),
          w,
          rw (given, parts, bad) refl,
          refl,
        )
        | inl (claims, valid) ↦ elim (Result-cases (get_user_id_from_token claims)) [
          | inr (e, bad) ↦ inl (
            unauthorized_error "malformed jwt" (wrapped e.err),
            w,
            rw (given, parts, valid, bad) refl,
            refl,
          )
          | inl (id, subject) ↦ elim (Result-cases (get_by_id id w).0) [
            | inr (e, bad) ↦ inl (
              e,
              (get_by_id id w).1,
              rw (given, parts, valid, subject, bad) refl,
              get_by_id_db id w,
            )
            | inl (u, read) ↦ elim (Bool-cases u.soft_deleted) [
              | inl gone ↦ inl (
                unauthorized_error "user is not active" no_cause,
                (get_by_id id w).1,
                rw (given, parts, valid, subject, read, gone) refl,
                get_by_id_db id w,
              )
              | inr active ↦
                  let there = get_by_id_lem id w u read in
                  let same : u.id ≡ id = found_lem id w.db.users u there in
                  inr (
                    u,
                    (get_by_id id w).1,
                    record {
                      token = token;
                      claims = claims;
                      parts = bearer_lem (split_spaces header) token parts;
                      valid = valid;
                      subject = rw same subject;
                      row = subst (λ i. find (λ v. v.id == i) w.db.users ≡ some u) (sym same) there;
                      active = active;
                    },
                    rw (given, parts, valid, subject, read, active) refl,
                    get_by_id_db id w,
                  )
            ]
          ]
        ]
      ]
    ]
  ]
