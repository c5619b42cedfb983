-- ===== src/Auth/Service/Issued.antt =====
-- What becomes of the tokens that the service issues.
use msa_core.Prelude.{
  ℕ, ◌+◌, ◌*◌, ◌/◌, ◌≤◌, ◌<◌, ◌≡◌, ◌≢◌, ap, sym, ◌∙◌, String, true, false, some, List, arith,
}
use msa_core.Prelude.Text.{◌+++◌}
use msa_core.Prelude.Result.{ok, ◌>>=◌}
use msa_core.Auth.Claims.{OAuthUser, JwtClaims, KeyFunc, Jwt}
use msa_core.Auth.Service.{
  JwtService, claims_of, generate_token, refresh_claims, generate_refresh_token, hmac_key, expired,
  validate_token, refresh_token, refresh_identity, any_key, validate_refresh_token,
}
use msa_core.Auth.Service.Laws.{validate_token_iff, identity_complete}

fresh_until : (now e : ℕ) → now < e → expired now (some e) ≡ false
unfolding expired
fresh_until now e h = ground arith

-- `reads_back`: until it expires, and from its `nbf` on, a token parses to the claims that were
-- signed, if the key function gives an HMAC token the signing key.
module _ (j : Jwt) (truncates : (t : ℕ) → j.new_numeric_date t ≤ t) (t : ℕ) (user : OAuthUser)
    (scopes : List String) (issuer sid : String) (d : ℕ) (key : String)
    (reads_back : (token_string : String) (now : ℕ) (f : KeyFunc)
      → j.signed_string (claims_of j t user scopes issuer sid d) key ≡ ok token_string
      → f true ≡ ok key
      → now < j.new_numeric_date (t + d)
      → j.new_numeric_date t ≤ now
      → j.parse_with_claims now f token_string
        ≡ ok (record { claims = claims_of j t user scopes issuer sid d; valid = true })) where
  -- An access token that was issued for a named session and issuer is accepted later, before it
  -- expires, with the claims that were signed, by every service with the same key that still finds
  -- the session in the store, if package jwt reads back what it has signed and does not round a
  -- date up.
  pub issued_token_valid :
      (s later : JwtService) (now : ℕ) (token_string : String)
      → s.secret_key ≡ key
      → later.secret_key ≡ key
      → generate_token j t s user scopes issuer sid d ≡ ok token_string
      → t ≤ now
      → now < j.new_numeric_date (t + d)
      → sid ≢ ""
      → issuer ≢ ""
      → later.exists ("session:" +++ sid) ≡ ok true
      → validate_token j now later token_string ≡ ok (claims_of j t user scopes issuer sid d)
  unfolding generate_token hmac_key claims_of
  issued_token_valid s later now token_string same same_later signed after before named issued
        live =
      let parsed =
        reads_back token_string now (hmac_key later)
          (ap (λ k. j.signed_string (claims_of j t user scopes issuer sid d) k) (sym same) ∙ signed)
          (ap (λ k. ok k) same_later) before (omega (arith, truncates t)) in
      (validate_token_iff j now later token_string (claims_of j t user scopes issuer sid d)).1
        (parsed, fresh_until now (j.new_numeric_date (t + d)) before, named, issued, live)

module _ (j : Jwt) (truncates : (t : ℕ) → j.new_numeric_date t ≤ t) (t : ℕ) (c : JwtClaims) (d : ℕ)
    (key : String)
    (reads_back : (token_string : String) (now : ℕ) (f : KeyFunc)
      → j.signed_string (claims_of j t c.user c.scopes c.issuer c.sid d) key ≡ ok token_string
      → f true ≡ ok key
      → now < j.new_numeric_date (t + d)
      → j.new_numeric_date t ≤ now
      → j.parse_with_claims now f token_string
        ≡ ok (record {
          claims = claims_of j t c.user c.scopes c.issuer c.sid d;
          valid = true;
        })) where
  -- The token that RefreshToken makes from one that is accepted is itself accepted later, before it
  -- expires, as long as the session is in the store: with the same user, scopes, issuer and session
  -- and an expiry of its own. Package jwt reads back what it has signed and does not round a date
  -- up.
  pub refreshed_token_valid :
      (s later : JwtService) (now : ℕ) (old new : String)
      → s.secret_key ≡ key
      → later.secret_key ≡ key
      → validate_token j t s old ≡ ok c
      → refresh_token j t s old d ≡ ok new
      → t ≤ now
      → now < j.new_numeric_date (t + d)
      → later.exists ("session:" +++ c.sid) ≡ ok true
      → validate_token j now later new ≡ ok (claims_of j t c.user c.scopes c.issuer c.sid d)
  unfolding refresh_token
  refreshed_token_valid s later now old new same same_later valid refreshed after before live =
      let (_, _, named, issued, _) = (validate_token_iff j t s old c).0 valid in
      issued_token_valid j truncates t c.user c.scopes c.issuer c.sid d key reads_back s later now
        new same same_later (rw (valid, ◌>>=◌) at refreshed) after before named issued live

module _ (j : Jwt) (t : ℕ) (user : OAuthUser) (issuer sid : String) (d : ℕ) (key : String)
    (reads_back : (token_string : String) (now : ℕ) (f : KeyFunc)
      → j.signed_map (refresh_claims t user issuer sid d) key ≡ ok token_string
      → f true ≡ ok key
      → now < (t + d) / 1000000000 * 1000000000
      → j.parse now f token_string
        ≡ ok (record { claims = refresh_claims t user issuer sid d; valid = true })) where
  -- A refresh token that was issued for a named session gives back, until it expires, the user's id
  -- and the session to every service with the same key, whatever that service's session store
  -- holds, if package jwt reads back the map that it has signed.
  pub refresh_token_round_trip :
      (s later : JwtService) (now : ℕ) (token_string : String)
      → s.secret_key ≡ key
      → later.secret_key ≡ key
      → generate_refresh_token j t s user issuer sid d ≡ ok token_string
      → now < (t + d) / 1000000000 * 1000000000
      → sid ≢ ""
      → validate_refresh_token j now later token_string ≡ ok (user.id, sid)
  unfolding generate_refresh_token validate_refresh_token any_key refresh_identity refresh_claims
  refresh_token_round_trip s later now token_string same same_later signed before named =
      let parsed =
        reads_back token_string now (any_key later)
          (ap (λ k. j.signed_map (refresh_claims t user issuer sid d) k) (sym same) ∙ signed)
          (ap (λ k. ok k) same_later) before in
      rw (parsed, ◌>>=◌) (identity_complete user.id sid named)
