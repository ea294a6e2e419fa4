-- ===== src/Middleware/Examples.antt =====
-- Runs of the gates, with libraries small enough to compute.
use gaggle.Prelude.{
  ℕ, ◌+◌, ◌≡◌, ◌⊎◌, refl, true, false, String, List, [], ◌∷◌, Option, none, some, arith, ltb,
  str_eq, str_eq_refl, if◌then◌else◌, pos,
}
use gaggle.AppErrors.{AppError, ok, err, forbidden_error, no_cause, too_many_requests_error}
use gaggle.Database.{User, World, pure, empty_db}
use gaggle.Realtime.{new_hub}
use gaggle.Sessions.{Libraries, JwtAuthenticator, Claims, parsed, invalid}
use gaggle.Middleware.Gates.{auth_token_middleware, admin_only_middleware, orchid_secret_middleware}
use gaggle.Middleware.Limiter.{Command, incr, expire, rate_limit_middleware}
use gaggle.Middleware.Passing.{Admits, auth-Admits}
use gaggle.Middleware.Window.{Counts, run_all, ask_all, ask_all-Counts}

abbrev claims : Claims
claims = record {
  sub = some 1;
  exp = 115;
  iat = 100;
  nbf = 100;
  iss = "gaggle";
  aud = "gaggle";
  typ = some "access";
  jti = 5;
}

abbrev libraries : Libraries
libraries = record {
  signed_string = λ secret c. some "signed";
  parse = λ secret issuer now s. if str_eq s "forged" then invalid else parsed claims;
  hash_token = λ s. s;
  compare_hash_and_password = str_eq;
  is_inet = λ s. true;
  lower = λ s. s;
}

abbrev authenticator : JwtAuthenticator
authenticator = record {
  secret = "secret";
  issuer = "gaggle";
  access_token_expiry = 15;
  refresh_token_expiry = 1000;
}

abbrev goose : User
goose = record {
  id = 1;
  username = "goose";
  email = "goose@example.org";
  password = "honk";
  is_admin = false;
  is_private = false;
  soft_deleted = false;
}

abbrev office : World
office = record {
  db = record empty_db { users = goose ∷ [] };
  hub = new_hub;
  sequence = 6;
  next_uuid = 5;
  now = 100;
  faults = [];
}

auth-Admits_example :
    ((e : AppError) × (v : World) × (auth_token_middleware libraries authenticator "Bearer signed"
          (λ u. pure u.id)
          office
        ≡ (err e, v))
      × (v.db ≡ office.db))
    ⊎ ((u : User) × (v : World) × Admits libraries authenticator "Bearer signed" office u
        × (auth_token_middleware libraries authenticator "Bearer signed" (λ u. pure u.id) office
            ≡ pure u.id v)
        × (v.db ≡ office.db))
auth-Admits_example = auth-Admits libraries authenticator "Bearer signed" (λ u. pure u.id) office

admin_test :
    admin_only_middleware (some goose) (pure goose) office
    ≡ (err (forbidden_error "admin access required" no_cause), office)
unfolding admin_only_middleware
admin_test = refl

no_secret_test : orchid_secret_middleware "" "" (pure goose) office ≡ (ok none, office)
unfolding orchid_secret_middleware
no_secret_test = refl

-- For each key, a number and the time when it is forgotten.
abbrev Memory : Type 0
Memory = String → ℕ × ℕ

abbrev number : String → ℕ → Memory → ℕ
number key now s = if ltb now (s key).1 then (s key).0 else 0

-- INCR on a key that is there leaves its expiry, and on one that is not sets none, which is a time
-- far away.
abbrev run : Command → ℕ → Memory → ℕ × Memory
run (incr key) now s = (
  number key now s + 1,
  λ k.
      if str_eq k key
      then (number key now s + 1, if ltb now (s key).1 then (s key).1 else now + 1_000_000)
      else s k,
)
run (expire key window) now s =
    (1, λ k. if str_eq k key then (number key now s, now + window) else s k)

abbrev exec : List Command → ℕ → Memory → Option (List ℕ) × Memory
exec cs now s = (some (run_all run cs now s).0, (run_all run cs now s).1)

exec-Counts : Counts exec run number
exec-Counts = record {
  in_order = λ cs now s. refl;
  counts = λ key now s. (refl, ground (arith, str_eq_refl key));
  keeps = λ key window now later s from until. ground (arith, str_eq_refl key);
}

ask_all-Counts_example :
    ask_all
      (rate_limit_middleware exec true (pos 2) 60 "/login" "10.0.0.1")
      (50 ∷ 59 ∷ 10 ∷ [])
      0
      (λ key. (0, 0))
    ≡ ok tt ∷ ok tt ∷ err too_many_requests_error ∷ err too_many_requests_error ∷ []
ask_all-Counts_example =
    ask_all-Counts exec run number 60 1 "/login" "10.0.0.1" (50 ∷ 59 ∷ 10 ∷ []) 0 (λ key. (0, 0))
      exec-Counts refl
