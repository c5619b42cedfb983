-- ===== src/Auth/Tests.antt =====
-- Runs of the token service and of the guards with a small token format: one text for each kind of
-- token, which parses to the claims of one user.
use msa_core.Prelude.{
  ℕ, ◌≤◌, ◌≡◌, refl, sym, ap, ◌≢◌, ◌↔◌, ◌⊎◌, String, Bool, true, false, if◌then◌else◌, Option, none,
  some, List, [], ◌∷◌, ◌==◌, arith, contains,
}
use msa_core.Prelude.Text.{◌+++◌, split, strip_prefix}
use msa_core.Prelude.Result.{error, Result, ok, err, ◌>>=◌}
use msa_core.Context.{background}
use msa_core.Auth.Claims.{OAuthUser, JwtClaims, text, seconds, MapClaims, Token, KeyFunc, Jwt}
use msa_core.Auth.Service.{
  JwtService, claims_of, generate_token, refresh_claims, hmac_key, expired, session_redis_key,
  session_checked, checked_claims, validate_token, refresh_token, validate_refresh_token,
}
use msa_core.Auth.Service.Laws.{validate_token_iff, validate_refresh_token_iff}
use msa_core.Auth.Service.Issued.{refreshed_token_valid}
use msa_core.Auth.Helper.{
  ParsedToken, Parser, secret_key, is_map, token_claims, Promised, with_token, content,
  verify_token, signature_ignored,
}
use msa_core.Prelude.Run.{panic, ret, index_range}
use msa_core.Auth.Middleware.{EchoContext, handled, HandlerFunc}
use msa_core.Auth.Middleware.Guards.{Refused, Bearer, admitted, guarded, guarded_chain}

abbrev ann : OAuthUser
ann = record { id = "u1"; email = "a@x"; name = "Ann"; provider = "msa"; roles = "admin" ∷ [] }

abbrev scopes_of_ann : List String
scopes_of_ann = "read" ∷ []

abbrev date : ℕ → ℕ
date t = t

abbrev ann_claims : JwtClaims
ann_claims = record {
  user = ann;
  scopes = scopes_of_ann;
  security_stamp = "";
  sid = "s1";
  expires_at = some 100;
  issued_at = some 0;
  not_before = some 0;
  issuer = "msa";
  subject = "u1";
}

abbrev parsed_with : {C : Type 0} → C → KeyFunc → Result (Token C)
parsed_with c f = f true >>= λ key. ok (record { claims = c; valid = true })

-- every token is Ann's, issued at time 0
abbrev ann_jwt : Jwt
ann_jwt = record {
  new_numeric_date = date;
  signed_string = λ c key. ok "access";
  signed_map = λ m key. ok "refresh";
  parse_with_claims = λ now f token. parsed_with ann_claims f;
  parse = λ now f token. parsed_with (refresh_claims 0 ann "msa" "s1" 5000000000) f;
}

abbrev service : JwtService
service = record { secret_key = "k"; exists = λ key. ok (key == "session:s1") }

-- the session has been deleted
abbrev logged_out : JwtService
logged_out = record { secret_key = "k"; exists = λ key. ok false }

signed_claims : claims_of ann_jwt 0 ann scopes_of_ann "msa" "s1" 100 ≡ ann_claims
unfolding claims_of
signed_claims = refl

accepted : validate_token ann_jwt 0 service "access" ≡ ok ann_claims
unfolding validate_token checked_claims hmac_key expired session_checked session_redis_key
accepted = refl

refused_after_logout : validate_token ann_jwt 0 logged_out "access" ≡ err (error "session expired")
unfolding validate_token checked_claims hmac_key expired session_checked session_redis_key
refused_after_logout = refl

validate_token_iff_example : (validate_token ann_jwt 0 service "access" ≡ ok ann_claims) ↔ (
    (ann_jwt.parse_with_claims 0 (hmac_key service) "access"
      ≡ ok (record { claims = ann_claims; valid = true }))
    × (expired 0 (some 100) ≡ false)
    × (ann_claims.sid ≢ "")
    × (ann_claims.issuer ≢ "")
    × (service.exists ("session:" +++ "s1") ≡ ok true))
validate_token_iff_example = validate_token_iff ann_jwt 0 service "access" ann_claims

validate_refresh_token_iff_example :
    (validate_refresh_token ann_jwt 0 logged_out "refresh" ≡ ok ("u1", "s1")) ↔ (
      (m : MapClaims) × (ann_jwt.parse 0 (λ hmac. ok "k") "refresh"
        ≡ ok (record { claims = m; valid = true }))
      × (m "typ" ≡ some (text "refresh"))
      × (m "sub" ≡ some (text "u1"))
      × (m "sid" ≡ some (text "s1"))
      × (ann_claims.sid ≢ ""))
validate_refresh_token_iff_example =
    validate_refresh_token_iff ann_jwt 0 logged_out "refresh" "u1" "s1"

date_truncates : (t : ℕ) → date t ≤ t
date_truncates t = omega arith

reads_access :
    (token_string : String) (now : ℕ) (f : KeyFunc)
    → f true ≡ ok "k"
    → parsed_with ann_claims f
      ≡ ok (record { claims = claims_of ann_jwt 0 ann scopes_of_ann "msa" "s1" 100; valid = true })
unfolding claims_of
reads_access token_string now f h = rw (h, ◌>>=◌) refl

refreshed_token_valid_example :
    validate_token ann_jwt 50 service "access"
    ≡ ok (claims_of ann_jwt 0 ann scopes_of_ann "msa" "s1" 100)
unfolding refresh_token generate_token validate_token checked_claims hmac_key expired
    session_checked session_redis_key
refreshed_token_valid_example =
    refreshed_token_valid ann_jwt date_truncates 0 ann_claims 100 "k"
      (λ token_string now f signed h before after. reads_access token_string now f h) service
      service 50 "access" "access" refl refl accepted refl (omega arith) (omega arith) refl

reads_refresh :
    (token_string : String) (now : ℕ) (f : KeyFunc)
    → f true ≡ ok "k"
    → parsed_with (refresh_claims 0 ann "msa" "s1" 5000000000) f
      ≡ ok (record { claims = refresh_claims 0 ann "msa" "s1" 5000000000; valid = true })
reads_refresh token_string now f h = rw (h, ◌>>=◌) refl

abbrev request_of_ann : EchoContext
request_of_ann = record {
  authorization = "Bearer access";
  api_key = "";
  user = none;
  scopes = none;
  claims = none;
  user_id = none;
  sid = none;
  roles = none;
  context = background;
}

abbrev validated : String → Result JwtClaims
validated = validate_token ann_jwt 0 service

abbrev sid_handler : HandlerFunc (Option String)
sid_handler c = handled c.sid

guarded_chain_example :
    ((claims : JwtClaims) × Bearer validated request_of_ann claims
      × (((contains claims.scopes "read" ≡ true)
            × (contains claims.user.roles "admin" ≡ true)
            × (guarded validated "read" "admin" sid_handler request_of_ann
                ≡ sid_handler (admitted claims request_of_ann)))
          ⊎ (((contains claims.scopes "read" ≡ false)
                ⊎ (contains claims.user.roles "admin" ≡ false))
              × Refused 403 (guarded validated "read" "admin" sid_handler request_of_ann))))
    ⊎ (((claims : JwtClaims) → ¬ (Bearer validated request_of_ann claims))
        × Refused 401 (guarded validated "read" "admin" sid_handler request_of_ann))
guarded_chain_example = guarded_chain validated "read" "admin" sid_handler request_of_ann refl

abbrev id_claims : MapClaims
id_claims key = if key == "id" then some (seconds 7) else none

abbrev judged : Bool → ParsedToken
judged v = record { claims = some id_claims; valid = v }

-- it knows the secret of the token, and one that accepts no signature
abbrev checking : Parser
checking f token = elim (f true) [
  | ok key ↦ some (judged (key == "k"))
  | err e ↦ some (judged false)
]

abbrev refusing : Parser
refusing f token = some (judged false)

abbrev holds_map : Option ParsedToken → Bool
holds_map none = true
holds_map (some t) = is_map t.claims

judged-Promised : (v : Bool) → Promised (some (judged v))
unfolding Promised
judged-Promised v t same valid = ap holds_map (sym same)

signature_ignored_example :
    verify_token checking "k" "Bearer x" ≡ verify_token refusing "" "Bearer x"
unfolding secret_key content
signature_ignored_example =
    signature_ignored checking refusing "k" "" "Bearer x" (λ token. judged-Promised true)
      (λ token. judged-Promised false) (λ token. refl)

forged_token_accepted : verify_token refusing "" "Bearer x" ≡ ret (ok id_claims)
unfolding verify_token token_claims strip_prefix split with_token
forged_token_accepted = refl

bearer_only_panics : verify_token refusing "" "Bearer" ≡ panic index_range
unfolding verify_token strip_prefix split with_token
bearer_only_panics = refl
