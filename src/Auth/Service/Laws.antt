-- ===== src/Auth/Service/Laws.antt =====
-- Which tokens the service accepts, and what becomes of the tokens that it issues.
use mathlib.Core.Path.{subst}
use msa_core.Prelude.{
  ℕ, ◌≡◌, refl, ◌≢◌, ap, ◌∙◌, ◌↔◌, String, Bool, true, false, Option, none, some, eq_iff, arith,
  if◌then◌else◌,
}
use msa_core.Prelude.Text.{◌+++◌}
use msa_core.Prelude.Result.{error, Result, ok, err, ◌>>=◌, >>=-eq-ok}
use msa_core.Auth.Claims.{JwtClaims, ClaimValue, text, seconds, other, MapClaims, Jwt}
use msa_core.Auth.Service.{
  JwtService, session_redis_key, hmac_key, expired, session_checked, checked_claims, validate_token,
  string_of, is_text, string_or_empty, refresh_identity, any_key, validate_refresh_token, identity,
}

session_of :
    (c : JwtClaims) (r : Result Bool) {d : JwtClaims}
    → (r >>= λ x. if x then ok c else err (error "session expired")) ≡ ok d
    → (r ≡ ok true) × (c ≡ d)
session_of c (ok true) h = ground arith
session_of c (ok false) h = ground arith
session_of c (err e) h = cc

checked_claims_sound :
    (now : ℕ) (s : JwtService) (c d : JwtClaims) (valid : Bool)
    → checked_claims now s (record { claims = c; valid = valid }) ≡ ok d
    → (valid ≡ true)
      × (expired now c.expires_at ≡ false)
      × (c.sid ≢ "")
      × (c.issuer ≢ "")
      × (session_checked s c ≡ ok d)
unfolding checked_claims
checked_claims_sound now s c d valid h = ground (arith, eq_iff c.sid "", eq_iff c.issuer "")

checked_claims_complete :
    (now : ℕ) (s : JwtService) (c : JwtClaims)
    → expired now c.expires_at ≡ false
    → c.sid ≢ ""
    → c.issuer ≢ ""
    → s.exists (session_redis_key c.sid) ≡ ok true
    → checked_claims now s (record { claims = c; valid = true }) ≡ ok c
unfolding checked_claims session_checked
checked_claims_complete now s c fresh sid issuer live =
    rw (live, ◌>>=◌, fresh) (ground (arith, eq_iff c.sid "", eq_iff c.issuer ""))

-- ValidateToken returns claims exactly when the token parses, under the key function that admits
-- HMAC methods only, to these claims and is valid, the claims have not expired, they name a session
-- and an issuer, and the session is in the store: once it is deleted the token is refused.
pub validate_token_iff :
    (j : Jwt) (now : ℕ) (s : JwtService) (token_string : String) (c : JwtClaims)
    → (validate_token j now s token_string ≡ ok c) ↔ (
        (j.parse_with_claims now (hmac_key s) token_string
          ≡ ok (record { claims = c; valid = true }))
        × (expired now c.expires_at ≡ false)
        × (c.sid ≢ "")
        × (c.issuer ≢ "")
        × (s.exists ("session:" +++ c.sid) ≡ ok true))
unfolding validate_token session_checked session_redis_key
validate_token_iff j now s token_string c = (
  λ h.
      let (token, parsed, checked) =
        >>=-eq-ok (j.parse_with_claims now (hmac_key s) token_string) (checked_claims now s) h in
      let (valid, fresh, sid, issuer, live) =
        checked_claims_sound now s token.claims c token.valid checked in
      let (exists, same) =
        session_of token.claims (s.exists (session_redis_key token.claims.sid)) live in
      subst
        (λ d.
          (j.parse_with_claims now (hmac_key s) token_string
            ≡ ok (record { claims = d; valid = true }))
          × (expired now d.expires_at ≡ false)
          × (d.sid ≢ "")
          × (d.issuer ≢ "")
          × (s.exists ("session:" +++ d.sid) ≡ ok true))
        same
        (
          parsed ∙ ap (λ v. ok (record { claims = token.claims; valid = v })) valid,
          fresh,
          sid,
          issuer,
          exists,
        ),
  λ (parsed, fresh, sid, issuer, live).
      rw (parsed, ◌>>=◌) (checked_claims_complete now s c fresh sid issuer live),
)

is_text-eq : (v : Option ClaimValue) (w : String) → is_text v w ≡ true → v ≡ some (text w)
unfolding is_text string_of
is_text-eq (some (text t)) w h = ap (λ x. some (text x)) (ground (arith, eq_iff t w))
is_text-eq (some (seconds n)) w h = ground arith
is_text-eq (some other) w h = ground arith
is_text-eq none w h = ground arith

nonempty_text :
    (v : Option ClaimValue) → string_or_empty v ≢ "" → v ≡ some (text (string_or_empty v))
unfolding string_or_empty string_of
nonempty_text (some (text t)) h = refl
nonempty_text (some (seconds n)) h = absurd (h refl)
nonempty_text (some other) h = absurd (h refl)
nonempty_text none h = absurd (h refl)

identity_sound :
    (typ sub sid : Option ClaimValue) {user_id i : String}
    → identity typ sub sid ≡ ok (user_id, i)
    → (typ ≡ some (text "refresh")) × (sub ≡ some (text user_id)) × (sid ≡ some (text i)) × (i ≢ "")
unfolding identity string_of
identity_sound typ (some (text u)) sid {user_id = user_id} {i = i} h =
    let (typed, u_eq, sid_eq, ne) : (is_text typ "refresh" ≡ true)
        × (u ≡ user_id)
        × (string_or_empty sid ≡ i)
        × (string_or_empty sid ≢ "") =
      ground (arith, eq_iff (string_or_empty sid) "") in
    (
      is_text-eq typ "refresh" typed,
      ap (λ x. some (text x)) u_eq,
      nonempty_text sid ne ∙ ap (λ x. some (text x)) sid_eq,
      λ e. ne (sid_eq ∙ e),
    )
identity_sound typ (some (seconds n)) sid h = ground arith
identity_sound typ (some other) sid h = ground arith
identity_sound typ none sid h = ground arith

pub identity_complete :
    (user_id i : String)
    → i ≢ ""
    → identity (some (text "refresh")) (some (text user_id)) (some (text i)) ≡ ok (user_id, i)
unfolding identity is_text string_of string_or_empty
identity_complete user_id i h = ground (arith, eq_iff i "")

-- ValidateRefreshToken returns a user and a session exactly when the token parses, under the key
-- function that admits every method, to a valid one whose claims are of type "refresh" and name the
-- two, the session by a text that is not empty. The session store has no part in it: a refresh
-- token stays good after its session is deleted.
pub validate_refresh_token_iff :
    (j : Jwt) (now : ℕ) (s : JwtService) (token_string user_id sid : String)
    → (validate_refresh_token j now s token_string ≡ ok (user_id, sid)) ↔ (
        (m : MapClaims) × (j.parse now (λ hmac. ok s.secret_key) token_string
          ≡ ok (record { claims = m; valid = true }))
        × (m "typ" ≡ some (text "refresh"))
        × (m "sub" ≡ some (text user_id))
        × (m "sid" ≡ some (text sid))
        × (sid ≢ ""))
unfolding validate_refresh_token any_key refresh_identity
validate_refresh_token_iff j now s token_string user_id sid = (
  λ h.
      let (token, parsed, found) =
        >>=-eq-ok (j.parse now (any_key s) token_string) refresh_identity h in
      let (valid, named) : (token.valid ≡ true)
          × (identity (token.claims "typ") (token.claims "sub") (token.claims "sid")
              ≡ ok (user_id, sid)) =
        ground arith in
      let (typ, sub, session, ne) =
        identity_sound (token.claims "typ") (token.claims "sub") (token.claims "sid") named in
      (
        token.claims,
        parsed ∙ ap (λ v. ok (record { claims = token.claims; valid = v })) valid,
        typ,
        sub,
        session,
        ne,
      ),
  λ (m, parsed, typ, sub, session, ne).
      rw (parsed, ◌>>=◌, typ, sub, session) (identity_complete user_id sid ne),
)
