-- ===== src/Auth/Claims.antt =====
-- pkg/models/auth_models.go, and the interface of package jwt that pkg/service/jwt_service.go uses.
-- Times are nanoseconds since the epoch, and a duration is not negative.
use msa_core.Prelude.{ℕ, String, Bool, Option, List}
use msa_core.Prelude.Result.{Result}

pub record OAuthUser : Type 0 where
  pub id : String
  pub email : String
  pub name : String
  pub provider : String
  pub roles : List String

-- the registered claims that the program sets or reads stand among the others
pub record JwtClaims : Type 0 where
  pub user : OAuthUser
  pub scopes : List String
  pub security_stamp : String
  pub sid : String
  pub expires_at : Option ℕ
  pub issued_at : Option ℕ
  pub not_before : Option ℕ
  pub issuer : String
  pub subject : String

-- what stands under a key of jwt.MapClaims
pub data ClaimValue : Type 0 where
  text : String → ClaimValue
  seconds : ℕ → ClaimValue
  other : ClaimValue

abbrev pub MapClaims : Type 0
MapClaims = String → Option ClaimValue

pub record Token (C : Type 0) : Type 0 where
  pub claims : C
  pub valid : Bool

-- what a key function answers; its argument says whether the token's method is an HMAC
abbrev pub KeyFunc : Type 0
KeyFunc = Bool → Result String

-- package jwt. `parse_with_claims` and `parse` take the time of the call, the key function and the
-- token; the signing methods are HS256.
pub record Jwt : Type 0 where
  pub new_numeric_date : ℕ → ℕ
  pub signed_string : JwtClaims → String → Result String
  pub signed_map : MapClaims → String → Result String
  pub parse_with_claims : ℕ → KeyFunc → String → Result (Token JwtClaims)
  pub parse : ℕ → KeyFunc → String → Result (Token MapClaims)
