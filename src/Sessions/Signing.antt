-- ===== src/Sessions/Signing.antt =====
-- Tokens from the generator to the validator.
use gaggle.Prelude.{ℕ, ◌≤◌, ◌<◌, ◌≡◌, Bool, true, false, String, some}
use gaggle.Sessions.Tokens.{
  Libraries, JwtAuthenticator, TokenType, access_token, refresh_token, Claims, parsed,
}

-- golang-jwt reads back the claims it signed with the same secret, from `nbf` on and before `exp`,
-- when issuer and audience are the expected ones.
abbrev pub ReadsBack : Libraries → JwtAuthenticator → Claims → Type 0
ReadsBack lib a c =
    (s : String) (now : ℕ)
    → lib.signed_string a.secret c ≡ some s
    → c.nbf ≤ now
    → now < c.exp
    → c.iss ≡ a.issuer
    → c.aud ≡ a.issuer
    → lib.parse a.secret a.issuer now s ≡ parsed c

abbrev pub same_type : TokenType → TokenType → Bool
same_type access_token access_token = true
same_type refresh_token refresh_token = true
same_type _ _ = false
