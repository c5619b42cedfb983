-- ===== src/Auth/Helper.antt =====
-- VerifyToken of pkg/helpers/jwt_helper.go. Its call of jwt.Parse is a parameter, and so is the
-- secret that it reads from the environment.
use msa_core.Prelude.{
  ◌≡◌, refl, ap, fun_ext, String, Bool, true, false, not, ◌&&◌, Option, none, some, get_elem?,
  if◌then◌else◌,
}
use msa_core.Prelude.Text.{split, strip_prefix}
use msa_core.Prelude.Result.{Error, error, Result, ok, err}
use msa_core.Prelude.Run.{Run, panic, ret, type_assertion, nil_dereference, index_range}
use msa_core.Auth.Claims.{MapClaims, KeyFunc}

-- the token that jwt.Parse answers next to its error, which VerifyToken drops; the claims are
-- `none` when they are not a jwt.MapClaims, as in a token whose header cannot be read
pub record ParsedToken : Type 0 where
  pub claims : Option MapClaims
  pub valid : Bool

-- jwt.Parse, which gives no token for a text that has not three parts
abbrev pub Parser : Type 0
Parser = KeyFunc → String → Option ParsedToken

abbrev pub sign_in : Error
sign_in = error "sign in to proceed"

unfoldable pub secret_key : String → KeyFunc
secret_key secret true = ok secret
secret_key secret false = err sign_in

abbrev pub is_map : Option MapClaims → Bool
is_map none = false
is_map (some m) = true

-- `return token.Claims.(jwt.MapClaims), nil`
abbrev pub asserted : Option MapClaims → Run (Result MapClaims)
asserted none = panic type_assertion
asserted (some m) = ret (ok m)

unfoldable pub token_claims : Option ParsedToken → Run (Result MapClaims)
token_claims none = panic nil_dereference
token_claims (some t) =
    if not (is_map t.claims) && not t.valid then ret (err sign_in) else asserted t.claims

-- what follows the prefix Bearer, the text after the first space, and what is done with that text
unfoldable pub with_token :
    Option String → Option String → (String → Run (Result MapClaims)) → Run (Result MapClaims)
with_token none part next = ret (err sign_in)
with_token (some rest) none next = panic index_range
with_token (some rest) (some token) next = next token

unfoldable pub verify_token : Parser → String → String → Run (Result MapClaims)
verify_token parse secret header =
    with_token (strip_prefix "Bearer" header) (get_elem? (split 32 header) 1)
      (λ token. token_claims (parse (secret_key secret) token))

-- what jwt.Parse promises: it says that a token is valid only after it has read the claims
unfoldable pub Promised : Option ParsedToken → Type 0
Promised p = (t : ParsedToken) → p ≡ some t → t.valid ≡ true → is_map t.claims ≡ true

-- what a token holds, whoever signed it
unfoldable pub content : Option ParsedToken → Option (Option MapClaims)
content none = none
content (some t) = some t.claims

unfoldable by_content : Option (Option MapClaims) → Run (Result MapClaims)
by_content none = panic nil_dereference
by_content (some none) = ret (err sign_in)
by_content (some (some m)) = ret (ok m)

assertion_lem :
    (c : Option MapClaims) (v : Bool)
    → (v ≡ true → is_map c ≡ true)
    → (if not (is_map c) && not v then ret (err sign_in) else asserted c) ≡ by_content (some c)
unfolding by_content
assertion_lem none true promised = cc (promised refl)
assertion_lem none false promised = refl
assertion_lem (some m) v promised = refl

token_claims-content :
    (p : Option ParsedToken) → Promised p → token_claims p ≡ by_content (content p)
unfolding token_claims by_content content Promised
token_claims-content none promised = refl
token_claims-content (some t) promised = assertion_lem t.claims t.valid (promised t refl)

-- Whatever the header, VerifyToken answers the same with two parsers, and two secrets, that find the
-- same claims in each token, however they judge its signature, its method and its expiry. Both
-- say that a token is valid only after they have read its claims.
pub signature_ignored :
    (parse forging : Parser) (secret other : String) (header : String)
    → ((token : String) → Promised (parse (secret_key secret) token))
    → ((token : String) → Promised (forging (secret_key other) token))
    → ((token : String)
        → content (parse (secret_key secret) token) ≡ content (forging (secret_key other) token))
    → verify_token parse secret header ≡ verify_token forging other header
unfolding verify_token
signature_ignored parse forging secret other header promised promised' same =
    ap (with_token (strip_prefix "Bearer" header) (get_elem? (split 32 header) 1)) (
      fun_ext (λ token. cc (
        token_claims-content (parse (secret_key secret) token) (promised token),
        token_claims-content (forging (secret_key other) token) (promised' token),
        ap by_content (same token),
      )))
