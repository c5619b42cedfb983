-- ===== src/Auth/Service.antt =====
-- pkg/service/jwt_service.go. The clock's readings, package jwt and the session store's answer to
-- Exists are arguments; what is printed is left out.
pub mod Laws
pub mod Issued
use msa_core.Prelude.{
  ℕ, ◌+◌, ◌/◌, String, Bool, true, false, not, Option, none, some, List, ◌==◌, ltb, if◌then◌else◌,
}
use msa_core.Prelude.Text.{◌+++◌}
use msa_core.Prelude.Result.{error, Result, ok, err, ◌>>=◌}
use msa_core.Auth.Claims.{
  OAuthUser, JwtClaims, ClaimValue, text, seconds, other, MapClaims, Token, KeyFunc, Jwt,
}

-- `sessionRedisKey`
unfoldable pub session_redis_key : String → String
session_redis_key sid = "session:" +++ sid

-- `exists` is what RedisClient.Exists answers
pub record JwtService : Type 0 where
  pub secret_key : String
  pub exists : String → Result Bool

-- `now` stands for the three readings of the clock
unfoldable pub claims_of : Jwt → ℕ → OAuthUser → List String → String → String → ℕ → JwtClaims
claims_of j now user scopes issuer sid expires_in = record {
  user = user;
  scopes = scopes;
  security_stamp = "";
  sid = sid;
  expires_at = some (j.new_numeric_date (now + expires_in));
  issued_at = some (j.new_numeric_date now);
  not_before = some (j.new_numeric_date now);
  issuer = issuer;
  subject = user.id;
}

unfoldable pub generate_token :
    Jwt → ℕ → JwtService → OAuthUser → List String → String → String → ℕ → Result String
generate_token j now s user scopes issuer sid expires_in =
    j.signed_string (claims_of j now user scopes issuer sid expires_in) s.secret_key

-- the map that GenerateRefreshToken signs
unfoldable pub refresh_claims : ℕ → OAuthUser → String → String → ℕ → MapClaims
refresh_claims now user issuer sid expires_in key =
    if key == "sub"
    then some (text user.id)
    else if key == "iss"
    then some (text issuer)
    else if key == "sid"
    then some (text sid)
    else if key == "typ"
    then some (text "refresh")
    else if key == "exp"
    then some (seconds ((now + expires_in) / 1000000000))
    else if key == "iat"
    then some (seconds (now / 1000000000))
    else none

unfoldable pub generate_refresh_token :
    Jwt → ℕ → JwtService → OAuthUser → String → String → ℕ → Result String
generate_refresh_token j now s user issuer sid expires_in =
    j.signed_map (refresh_claims now user issuer sid expires_in) s.secret_key

-- the key function of ValidateToken
unfoldable pub hmac_key : JwtService → KeyFunc
hmac_key s true = ok s.secret_key
hmac_key s false = err (error "unexpected signing method")

-- `claims.ExpiresAt != nil && claims.ExpiresAt.Time.Before(now)`
unfoldable pub expired : ℕ → Option ℕ → Bool
expired now none = false
expired now (some t) = ltb t now

unfoldable pub session_checked : JwtService → JwtClaims → Result JwtClaims
session_checked s claims = do
  exists ← s.exists (session_redis_key claims.sid)
  if exists then ok claims else err (error "session expired")

unfoldable pub checked_claims : ℕ → JwtService → Token JwtClaims → Result JwtClaims
checked_claims now s token =
    if not token.valid
    then err (error "invalid token")
    else if expired now token.claims.expires_at
    then err (error "token expired or invalid")
    else if token.claims.sid == ""
    then err (error "missing session id")
    else if token.claims.issuer == ""
    then err (error "missing issuer")
    else session_checked s token.claims

unfoldable pub validate_token : Jwt → ℕ → JwtService → String → Result JwtClaims
validate_token j now s token_string = do
  token ← j.parse_with_claims now (hmac_key s) token_string
  checked_claims now s token

unfoldable pub refresh_token : Jwt → ℕ → JwtService → String → ℕ → Result String
refresh_token j now s token_string expires_in = do
  claims ← validate_token j now s token_string
  generate_token j now s claims.user claims.scopes claims.issuer claims.sid expires_in

-- `v.(string)`
unfoldable pub string_of : Option ClaimValue → Option String
string_of (some (text t)) = some t
string_of (some (seconds n)) = none
string_of (some other) = none
string_of none = none

-- `v == w` for a string `w`
unfoldable pub is_text : Option ClaimValue → String → Bool
unfolding string_of
is_text v w = elim (string_of v) [ some t ↦ t == w | none ↦ false ]

-- `sid, _ := v.(string)`
unfoldable pub string_or_empty : Option ClaimValue → String
unfolding string_of
string_or_empty v = elim (string_of v) [ some t ↦ t | none ↦ "" ]

-- what follows the check that there is a valid token; the claims are `typ`, `sub` and `sid`
unfoldable pub identity :
    Option ClaimValue → Option ClaimValue → Option ClaimValue → Result (String × String)
identity typ sub sid =
    if not (is_text typ "refresh")
    then err (error "invalid refresh token type")
    else (elim (string_of sub) [
      | none ↦ err (error "invalid refresh token claims")
      | some user_id ↦
          if string_or_empty sid == ""
          then err (error "missing session id")
          else ok (user_id, string_or_empty sid)
    ])

unfoldable pub refresh_identity : Token MapClaims → Result (String × String)
refresh_identity token =
    if not token.valid
    then err (error "invalid refresh token")
    else identity (token.claims "typ") (token.claims "sub") (token.claims "sid")

-- the key function of ValidateRefreshToken does not look at the method
unfoldable pub any_key : JwtService → KeyFunc
any_key s hmac = ok s.secret_key

-- the store is not asked
unfoldable pub validate_refresh_token : Jwt → ℕ → JwtService → String → Result (String × String)
validate_refresh_token j now s token_string = do
  token ← j.parse now (any_key s) token_string
  refresh_identity token
