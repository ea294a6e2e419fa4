-- ===== src/Sessions/Tokens.antt =====
-- server/internal/auth/jwt.go. The libraries that sign, parse and hash are parameters.
use gaggle.Prelude.{ℕ, suc, ◌+◌, Bool, String, Option, none, some, str_eq, if◌then◌else◌}
use gaggle.AppErrors.{
  Result, ok, err, internal_server_error, invalid_token_error, no_cause, other_cause, token_expired,
}
use gaggle.Database.{M}

pub data TokenType : Type 0 where
  access_token refresh_token : TokenType

abbrev pub type_name : TokenType → String
type_name access_token = "access"
type_name refresh_token = "refresh"

-- jwt.MapClaims, as far as the server reads it: `sub` and `typ` may be missing or of another type
-- in a token that somebody else made.
pub record Claims : Type 0 where
  pub sub : Option ℕ
  pub exp : ℕ
  pub iat : ℕ
  pub nbf : ℕ
  pub iss : String
  pub aud : String
  pub typ : Option String
  pub jti : ℕ

-- What `jwt.Parse` returns, with the options of `ValidateToken`.
pub data Parsed : Type 0 where
  parsed : Claims → Parsed
  expired : Parsed
  invalid : Parsed

-- golang-jwt, crypto/sha256, bcrypt, and PostgreSQL's reading of an INET and of LOWER.
pub record Libraries : Type 0 where
  pub signed_string : String → Claims → Option String
  pub parse : String → String → ℕ → String → Parsed
  pub hash_token : String → String
  pub compare_hash_and_password : String → String → Bool
  pub is_inet : String → Bool
  pub lower : String → String

pub record JwtAuthenticator : Type 0 where
  pub secret : String
  pub issuer : String
  pub access_token_expiry : ℕ
  pub refresh_token_expiry : ℕ

pub record Token : Type 0 where
  pub token_string : String
  pub issued_at : ℕ
  pub expires_at : ℕ

module _ (lib : Libraries) (a : JwtAuthenticator) where
  abbrev pub expiry_of : TokenType → ℕ
  expiry_of access_token = a.access_token_expiry
  expiry_of refresh_token = a.refresh_token_expiry

  abbrev pub claims_of : ℕ → TokenType → ℕ → ℕ → Claims
  claims_of user_id type now jti = record {
    sub = some user_id;
    exp = now + expiry_of type;
    iat = now;
    nbf = now;
    iss = a.issuer;
    aud = a.issuer;
    typ = some (type_name type);
    jti = jti;
  }

  abbrev signed : Option String → ℕ → ℕ → Result Token
  signed none now exp = err (internal_server_error other_cause)
  signed (some s) now exp = ok (record { token_string = s; issued_at = now; expires_at = exp })

  -- `generateToken`
  unfoldable pub generate_token : ℕ → TokenType → M Token
  generate_token user_id type w = (
    signed (lib.signed_string a.secret (claims_of user_id type w.now w.next_uuid)) w.now
        (w.now + expiry_of type),
    record w { next_uuid = suc w.next_uuid },
  )

  abbrev check_type : Claims → Option String → TokenType → Result Claims
  check_type c none type = err (invalid_token_error "token missing 'typ' claim" no_cause)
  check_type c (some typ) type =
      if str_eq typ (type_name type)
      then ok c
      else err (invalid_token_error "token type mismatch" no_cause)

  abbrev check_parsed : Parsed → TokenType → Result Claims
  check_parsed expired type = err (invalid_token_error "token validation failed" token_expired)
  check_parsed invalid type = err (invalid_token_error "token validation failed" other_cause)
  check_parsed (parsed c) type = check_type c c.typ type

  -- `ValidateToken`
  unfoldable pub validate_token : String → TokenType → ℕ → Result Claims
  validate_token token_string type now =
      check_parsed (lib.parse a.secret a.issuer now token_string) type

-- `GetUserIDFromToken`
abbrev user_of : Option ℕ → Result ℕ
user_of none = err (invalid_token_error "invalid user ID in token" no_cause)
user_of (some id) = ok id

unfoldable pub get_user_id_from_token : Claims → Result ℕ
get_user_id_from_token c = user_of c.sub
