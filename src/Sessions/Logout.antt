-- ===== src/Sessions/Logout.antt =====
-- Deleting the key of a session in Redis ends that session for the token service, and no other.
use mathlib.Core.Path.{fun_ext}
use text.Mathlib.TextLemmas.{append_cancel_left}
use msa_core.Prelude.{
  ℕ, String, Bool, true, false, ◌≡◌, ◌≢◌, refl, ap, sym, ◌∙◌, eq_iff, arith, if◌then◌else◌,
}
use msa_core.Prelude.Int.{pos}
use msa_core.Prelude.Text.{◌+++◌}
use msa_core.Prelude.Result.{Error, error, Result, ok, err, ◌>>=◌}
use msa_core.Auth.Claims.{JwtClaims, Jwt}
use msa_core.Auth.Service.{
  JwtService, session_redis_key, hmac_key, expired, session_checked, checked_claims, validate_token,
  refresh_token,
}
use msa_core.Auth.Service.Laws.{validate_token_iff}
use msa_core.Redis.{
  Mode, value, number, del_command, exists_command, is_positive, Server, del, exists,
}
use msa_core.Redis.Structs.Connected.{Connected, client, send_up}
use msa_core.Sessions.{result_of, new_jwt_service}

-- What Redis documents of EXISTS and DEL with one key.
pub record IsKeyStore {V F S : Type 0} (srv : Server V F S) (has : S → String → Bool) : Type 0 where
  pub counted :
      (k : String) (s : S)
      → (srv.run number (exists_command k) s).0 ≡ value (pos (if has s k then 1 else 0))
  pub removed : (k : String) (s : S) → has (srv.run number (del_command k) s).1 k ≡ false
  pub kept : (k j : String) (s : S) → k ≢ j → has (srv.run number (del_command k) s).1 j ≡ has s j

ok_injective : {a b : Bool} → ok a ≡ ok b → a ≡ b
ok_injective e = cc

count_of : (b : Bool) → is_positive (pos (if b then 1 else 0)) ≡ value b
count_of true = refl
count_of false = refl

checked_claims_gone :
    (now : ℕ) (s : JwtService) (c : JwtClaims)
    → expired now c.expires_at ≡ false
    → c.sid ≢ ""
    → c.issuer ≢ ""
    → s.exists (session_redis_key c.sid) ≡ ok false
    → checked_claims now s (record { claims = c; valid = true }) ≡ err (error "session expired")
unfolding checked_claims session_checked
checked_claims_gone now s c fresh sid issuer gone =
    rw (gone, ◌>>=◌, fresh) (ground (arith, eq_iff c.sid "", eq_iff c.issuer ""))

hmac_at :
    (s s' : JwtService) → s'.secret_key ≡ s.secret_key → (b : Bool) → hmac_key s' b ≡ hmac_key s b
unfolding hmac_key
hmac_at s s' e true = ap ok e
hmac_at s s' e false = refl

-- the token is the one that was accepted, and the service differs in what the store answers
module _ (j : Jwt) (now : ℕ) (t : String) (c : JwtClaims) (s s' : JwtService)
    (secret : s'.secret_key ≡ s.secret_key) (accepted : validate_token j now s t ≡ ok c) where
  parsed_again : j.parse_with_claims now (hmac_key s') t ≡ ok (record { claims = c; valid = true })
  parsed_again =
      ap (λ (k : Bool → Result String). j.parse_with_claims now k t) (fun_ext (hmac_at s s' secret))
      ∙ ((validate_token_iff j now s t c).0 accepted).0

  refused_without :
      s'.exists (session_redis_key c.sid) ≡ ok false
      → validate_token j now s' t ≡ err (error "session expired")
  unfolding validate_token
  refused_without gone =
      let (_, fresh, sid, issuer, _) = (validate_token_iff j now s t c).0 accepted in
      rw parsed_again (checked_claims_gone now s' c fresh sid issuer gone)

  accepted_with : s'.exists ("session:" +++ c.sid) ≡ ok true → validate_token j now s' t ≡ ok c
  accepted_with live =
      let (_, fresh, sid, issuer, _) = (validate_token_iff j now s t c).0 accepted in
      (validate_token_iff j now s' t c).1 (parsed_again, fresh, sid, issuer, live)

refresh_token_refused :
    (j : Jwt) (now expires_in : ℕ) (s : JwtService) (t : String) (e : Error)
    → validate_token j now s t ≡ err e
    → refresh_token j now s t expires_in ≡ err e
unfolding refresh_token
refresh_token_refused j now expires_in s t e h = rw h refl

module _ {V F S : Type 0} (srv : Server V F S) (has : S → String → Bool) (mode : Mode)
    (prefix : String) where
  abbrev service_at : String → S → JwtService
  service_at secret_key s = new_jwt_service srv (client mode prefix) s secret_key

  exists_has :
      (secret_key key : String) (s : S)
      → IsKeyStore srv has
      → Connected mode
      → (service_at secret_key s).exists key ≡ ok (has s (prefix +++ key))
  unfolding new_jwt_service exists
  exists_has secret_key key s store up =
      rw
        (
          send_up srv mode prefix number (exists_command (prefix +++ key)) s up,
          store.counted (prefix +++ key) s,
        )
        (ap result_of (count_of (has s (prefix +++ key))))

  del_state :
      (key : String) (s : S)
      → Connected mode
      → (del srv (client mode prefix) key s).1 ≡ (srv.run number (del_command (prefix +++ key)) s).1
  unfolding del
  del_state key s up = rw (send_up srv mode prefix number (del_command (prefix +++ key)) s up) refl

-- A token that is accepted now is refused, with the error that its session has expired, by ValidateToken
-- and RefreshToken once the key of its session has been deleted through the Redis client, while
-- deleting the key of any other session leaves it accepted. The client is connected, EXISTS counts the
-- key and DEL removes it and no other.
pub logout_exact :
    {V F S : Type 0} (srv : Server V F S) (has : S → String → Bool) (mode : Mode)
    → (prefix secret_key : String) (j : Jwt) (now expires_in : ℕ) (t other : String)
    → (c : JwtClaims) (s : S) → IsKeyStore srv has
    → Connected mode
    → validate_token j now (new_jwt_service srv (client mode prefix) s secret_key) t ≡ ok c
    → other ≢ c.sid
    → (validate_token j now
          (new_jwt_service srv
            (client mode prefix)
            (del srv (client mode prefix) (session_redis_key c.sid) s).1
            secret_key)
          t
        ≡ err (error "session expired"))
      × (refresh_token j now
            (new_jwt_service srv
              (client mode prefix)
              (del srv (client mode prefix) (session_redis_key c.sid) s).1
              secret_key)
            t
            expires_in
          ≡ err (error "session expired"))
      × (validate_token j now
            (new_jwt_service srv
              (client mode prefix)
              (del srv (client mode prefix) (session_redis_key other) s).1
              secret_key)
            t
          ≡ ok c)
unfolding session_redis_key new_jwt_service
logout_exact {V} {F} {S} srv has mode prefix secret_key j now expires_in t other c s store up h ne =
    let key = prefix +++ ("session:" +++ c.sid) in
    let before = new_jwt_service srv (client mode prefix) s secret_key in
    let out = (del srv (client mode prefix) (session_redis_key c.sid) s).1 in
    let out_other = (del srv (client mode prefix) (session_redis_key other) s).1 in
    let live : has s key ≡ true = ok_injective (
      sym (exists_has srv has mode prefix secret_key ("session:" +++ c.sid) s store up)
      ∙ ((validate_token_iff j now before t c).0 h).4) in
    let gone : has out key ≡ false =
      ap (λ (x : S). has x key) (del_state srv has mode prefix ("session:" +++ c.sid) s up)
      ∙ store.removed key s in
    let still : has out_other key ≡ true =
      ap (λ (x : S). has x key) (del_state srv has mode prefix ("session:" +++ other) s up)
      ∙ store.kept (prefix +++ ("session:" +++ other)) key s
          (λ e. ne (append_cancel_left "session:" other c.sid (append_cancel_left prefix _ _ e)))
      ∙ live in
    let refused =
      refused_without j now t c before (new_jwt_service srv (client mode prefix) out secret_key)
        refl h
        (exists_has srv has mode prefix secret_key ("session:" +++ c.sid) out store up
          ∙ ap ok gone) in
    (
      refused,
      refresh_token_refused j now expires_in _ t _ refused,
      accepted_with j now t c before (new_jwt_service srv (client mode prefix) out_other secret_key)
          refl h
          (exists_has srv has mode prefix secret_key ("session:" +++ c.sid) out_other store up
            ∙ ap ok still),
    )
