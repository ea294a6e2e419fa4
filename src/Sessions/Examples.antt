-- ===== src/Sessions/Examples.antt =====
-- Runs of the session service, with libraries small enough to compute.
use gaggle.Prelude.{
  ℕ, refl, true, false, not, String, [], ◌∷◌, Option, none, some, arith, str_eq, if◌then◌else◌,
  if◌then◌else◌,
}
use gaggle.Database.{User, RefreshToken, World, empty_db, Ends}
use gaggle.Realtime.{new_hub}
use gaggle.Sessions.Tokens.{Libraries, JwtAuthenticator, Claims, parsed, invalid, validate_token}
use gaggle.Sessions.Service.{refresh, logout, get_user_id_from_refresh_token, fit_column}
use gaggle.Sessions.Runs.{IsSound, logs_in, refreshes, logs_out, serve_all, serve_all-IsSound}
use gaggle.Sessions.Endings.{Stolen, LoggedOut, theft, logout-Ends, stream_refused}

abbrev claims : Claims
claims = record {
  sub = some 1;
  exp = 1100;
  iat = 100;
  nbf = 100;
  iss = "gaggle";
  aud = "gaggle";
  typ = some "refresh";
  jti = 5;
}

-- One signature for every token of the run, and a hash that is the identity.
abbrev libraries : Libraries
libraries = record {
  signed_string = λ secret c. some "signed";
  parse = λ secret issuer now s. if str_eq s "forged" then invalid else parsed claims;
  hash_token = λ s. s;
  compare_hash_and_password = str_eq;
  is_inet = λ s. not (str_eq s "[");
  lower = λ s. s;
}

abbrev authenticator : JwtAuthenticator
authenticator = record {
  secret = "secret";
  issuer = "gaggle";
  access_token_expiry = 15;
  refresh_token_expiry = 1000;
}

abbrev user : User
user = record {
  id = 1;
  username = "goose";
  email = "goose@example.org";
  password = "honk";
  is_admin = false;
  is_private = false;
  soft_deleted = false;
}

abbrev long_agent : String
long_agent =
    "Mozilla/5.0 aaaaaaaaaaaaaaaaaaaaaaaaaaaaaaaaaaaaaaaaaaaaaaaaaaaaaaaaaaaaaaaaaaaaaaaaaaaaaaaaaaaaaaaaaaaaaaaaaaaaaaaaaaaaaaaaaaaaaaaaaaaaaaaaaaaaaaaaaaaaaaaaaaaaaaaaaaaaaaaaaaaaaaaaaaaaaaaaaaaaaaaaaaaaaaaaaaaaaaaaaaaaaaaaaaaaaaaaaaaaaaaaaaaaaaaaaaaaaaaaaaaaaaaaaa"

abbrev stored_as : String → ℕ → String → Option String → RefreshToken
stored_as hash session agent reason = record {
  refresh_token_id = 0;
  session_id = session;
  user_id = 1;
  token_hash = hash;
  issued_at = 90;
  expires_at = 1090;
  revoked = elim reason [ none ↦ false | some _ ↦ true ];
  revoked_at = elim reason [ none ↦ none | some _ ↦ some 95 ];
  revoked_reason = reason;
  user_agent = agent;
  ip_address = "10.0.0.1";
}

-- The first family has rotated once, the second is active, the third was logged out.
abbrev office : World
office = record {
  db = record empty_db {
    users = user ∷ [];
    refresh_tokens =
        stored_as "old" 3 "Firefox" (some "rotated")
        ∷ stored_as "new" 3 "Firefox" none
        ∷ stored_as "live" 4 "Firefox" none
        ∷ stored_as "gone" 5 "Firefox" (some "logout")
        ∷ stored_as "long" 6 (fit_column long_agent) (some "rotated")
        ∷ [];
  };
  hub = new_hub;
  sequence = 6;
  next_uuid = 7;
  now = 100;
  faults = [];
}

abbrev old_row : RefreshToken
old_row = stored_as "old" 3 "Firefox" (some "rotated")

serve_all-IsSound_example : IsSound (
    serve_all libraries authenticator office (
      (110, [], logs_in "goose" "honk" "10.0.0.2:4000" "Firefox")
      ∷ (120, false ∷ true ∷ [], refreshes "old" "10.0.0.9:1" "curl")
      ∷ (130, [], refreshes "live" "10.0.0.2:4000" "Firefox")
      ∷ (140, [], logs_out "new")
      ∷ []))
serve_all-IsSound_example =
    serve_all-IsSound libraries authenticator office
      ((110, [], logs_in "goose" "honk" "10.0.0.2:4000" "Firefox")
        ∷ (120, false ∷ true ∷ [], refreshes "old" "10.0.0.9:1" "curl")
        ∷ (130, [], refreshes "live" "10.0.0.2:4000" "Firefox")
        ∷ (140, [], logs_out "new")
        ∷ [])
      (record { one_active = λ s. ground arith; undrawn = λ s p. ground arith })

theft_example :
    Stolen libraries authenticator office 3
      (refresh libraries authenticator "old" "10.0.0.9:1" "curl" office)
unfolding validate_token
theft_example =
    theft libraries authenticator office "old" "10.0.0.9:1" "curl" claims old_row refl refl refl
      refl refl

logout-Ends_example :
    Ends office (λ _ d. LoggedOut office 4 d) (logout libraries authenticator "live" office)
logout-Ends_example = logout-Ends libraries authenticator office "live"

stream_refused_example :
    Ends office (λ _ _. ⊥) (get_user_id_from_refresh_token libraries authenticator "gone" office)
stream_refused_example =
    stream_refused libraries authenticator office "gone"
      (stored_as "gone" 5 "Firefox" (some "logout")) refl refl
