-- ===== src/Auth/Middleware.antt =====
-- pkg/middleware/jwt_auth_middleware.go and api_key_auth.go. The token service's ValidateToken is
-- an argument, so one request sees one answer for each token.
pub mod Guards
use Prim.Native.Char.{code}
use msa_core.Prelude.{
  ℕ, String, Bool, true, false, not, ◌||◌, Option, none, some, List, [], ◌==◌, contains, is_empty,
  if◌then◌else◌,
}
use msa_core.Prelude.Text.{◌+++◌, strip_prefix}
use msa_core.Prelude.Result.{Error, error, wrap, Result, ok, err}
use msa_core.Context.{Context, with_user_id, with_sid}
use msa_core.Auth.Claims.{OAuthUser, JwtClaims}

-- what the middleware reads and sets of the echo context; the values that c.Set stores under
-- "user", "scopes", "claims", "user_id", "sid" and "roles" are `none` until they are set
pub record EchoContext : Type 0 where
  pub authorization : String
  pub api_key : String
  pub user : Option OAuthUser
  pub scopes : Option (List String)
  pub claims : Option JwtClaims
  pub user_id : Option String
  pub sid : Option String
  pub roles : Option (List String)
  pub context : Context

-- the middleware's own reply, which is a status with an error and its description or a message, or
-- what the handler it guards returns
pub data Outcome (A : Type 0) : Type 0 where
  refused : ℕ → String → String → Outcome A
  refused_message : ℕ → String → Outcome A
  handled : A → Outcome A

abbrev pub HandlerFunc : Type 0 → Type 0
HandlerFunc A = EchoContext → Outcome A

-- `err.Error()`
unfoldable pub error_text : Error → String
error_text (error m) = m
error_text (wrap m cause) = m +++ (": " +++ error_text cause)

-- the principal, put into the echo context and the request's context
unfoldable pub with_principal : JwtClaims → EchoContext → EchoContext
with_principal claims c = record c {
  user = some claims.user;
  scopes = some claims.scopes;
  claims = some claims;
  user_id = some claims.user.id;
  sid = some claims.sid;
  context = with_sid (with_user_id c.context claims.user.id) claims.sid;
}

abbrev pub stored : {A : Type 0} → Option (List A) → List A
stored none = []
stored (some l) = l

abbrev pub roles_of_user : Option OAuthUser → List String
roles_of_user none = []
roles_of_user (some u) = u.roles

module _ {A : Type 0} (validate : String → Result JwtClaims) where
  -- the block that the three functions share: from the header to the claims, or a refusal
  unfoldable pub with_claims : EchoContext → (JwtClaims → Outcome A) → Outcome A
  with_claims c next =
      if c.authorization == ""
      then refused 401 "missing_authorization_header" "Authorization header is required"
      else (elim (strip_prefix "Bearer " c.authorization) [
        | none ↦
            refused 401 "invalid_authorization_header"
              "Authorization header must start with 'Bearer '"
        | some token ↦
            if token == ""
            then refused 401 "missing_token" "Token is required"
            else (elim (validate token) [
              | err e ↦ refused 401 "invalid_token" (error_text e)
              | ok claims ↦ next claims
            ])
      ])

  unfoldable pub require_auth : HandlerFunc A → HandlerFunc A
  require_auth next c = with_claims c λ claims. next (with_principal claims c)

  unfoldable pub scope_checked : String → HandlerFunc A → List String → HandlerFunc A
  scope_checked required_scope next scopes c =
      if contains scopes required_scope
      then next c
      else refused 403 "insufficient_scope" ("Insufficient scope. Required: " +++ required_scope)

  unfoldable pub require_scope : String → HandlerFunc A → HandlerFunc A
  require_scope required_scope next c =
      if is_empty (stored c.scopes)
      then with_claims c
          (λ claims. scope_checked required_scope next claims.scopes (with_principal claims c))
      else scope_checked required_scope next (stored c.scopes) c

  unfoldable pub role_checked : String → HandlerFunc A → List String → HandlerFunc A
  role_checked required_role next roles c =
      if is_empty roles
      then refused 403 "missing_role" "No role found in token"
      else if contains roles required_role
      then next c
      else refused 403 "insufficient_role" ("Insufficient role. Required: " +++ required_role)

  -- the stored roles, or those of the stored user, or those of the token's user
  unfoldable pub require_role : String → HandlerFunc A → HandlerFunc A
  require_role required_role next c =
      if not (is_empty (stored c.roles))
      then role_checked required_role next (stored c.roles) c
      else if not (is_empty (roles_of_user c.user))
      then role_checked required_role next (roles_of_user c.user)
          (record c { roles = some (roles_of_user c.user) })
      else with_claims c λ claims.
        role_checked required_role next claims.user.roles
          (record (with_principal claims c) { roles = some claims.user.roles })

unfoldable pub api_key_auth_middleware : {A : Type 0} → String → HandlerFunc A → HandlerFunc A
api_key_auth_middleware expected_api_key next c =
    if c.api_key == "" || not (c.api_key == expected_api_key)
    then refused_message 401 "Invalid or missing API key"
    else next c
