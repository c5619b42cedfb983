-- ===== src/Sessions/Tests.antt =====
-- A user who is logged in on two devices logs out on one.
use msa_core.Prelude.{
  ℕ, String, Bool, true, false, ◌≡◌, ◌≢◌, refl, none, some, [], ◌==◌, ◌||◌, eq_iff, if◌then◌else◌,
  arith,
}
use msa_core.Prelude.Int.{pos}
use msa_core.Prelude.Result.{error, ok, err, ◌>>=◌}
use msa_core.Auth.Claims.{JwtClaims, Jwt}
use msa_core.Auth.Service.{
  session_redis_key, hmac_key, expired, session_checked, checked_claims, validate_token,
  refresh_token,
}
use msa_core.Redis.{
  single, Outcome, value, absent, Kind, Val, Command, del_command, exists_command, Server, send,
  del, exists,
}
use msa_core.Redis.Structs.Connected.{client}
use msa_core.Sessions.{new_jwt_service}
use msa_core.Sessions.Logout.{IsKeyStore, logout_exact}

abbrev State : Type 0
State = String → Bool

abbrev respond : (k : Kind) → Command String ℕ k → State → Outcome (Val ℕ k) × State
respond _ (exists_command k) s = (value (pos (if s k then 1 else 0)), s)
respond _ (del_command k) s = (value (pos 1), λ j. if j == k then false else s j)
respond _ _ s = (absent, s)

abbrev srv : Server String ℕ State
srv = record { run = respond; scans = λ p s. []; close = λ s. (none, s) }

removed_key : (k : String) (s : State) → (if k == k then false else s k) ≡ false
removed_key k s = ground (arith, eq_iff k k)

kept_key : (k j : String) (s : State) → k ≢ j → (if j == k then false else s j) ≡ s j
kept_key k j s ne = ground (arith, eq_iff j k)

srv-IsKeyStore : IsKeyStore srv (λ s k. s k)
srv-IsKeyStore = record { counted = λ k s. refl; removed = removed_key; kept = kept_key }

abbrev claims : JwtClaims
claims = record {
  user = record { id = "u1"; email = "a@x"; name = "Ann"; provider = "msa"; roles = [] };
  scopes = [];
  security_stamp = "";
  sid = "phone";
  expires_at = some 100;
  issued_at = none;
  not_before = none;
  issuer = "msa";
  subject = "u1";
}

abbrev jwt : Jwt
jwt = record {
  new_numeric_date = λ t. t;
  signed_string = λ c k. ok "token";
  signed_map = λ m k. ok "token";
  parse_with_claims = λ now f t. f true >>= λ k. ok (record { claims = claims; valid = true });
  parse = λ now f t. err (error "token is malformed");
}

abbrev both : State
both k = k == "app:session:phone" || k == "app:session:laptop"

accepted :
    validate_token jwt 0 (new_jwt_service srv (client (single "c:3") "app:") both "k") "token"
    ≡ ok claims
unfolding validate_token checked_claims hmac_key expired session_checked session_redis_key
    new_jwt_service exists send
accepted = refl

apart : ◌≢◌ {A = String} "laptop" "phone"
apart e = ground (arith, eq_iff "laptop" "phone")

logout_exact_example :
    (validate_token jwt 0
        (new_jwt_service srv
          (client (single "c:3") "app:")
          (del srv (client (single "c:3") "app:") (session_redis_key "phone") both).1
          "k")
        "token"
      ≡ err (error "session expired"))
    × (refresh_token jwt 0
          (new_jwt_service srv
            (client (single "c:3") "app:")
            (del srv (client (single "c:3") "app:") (session_redis_key "phone") both).1
            "k")
          "token"
          60
        ≡ err (error "session expired"))
    × (validate_token jwt 0
          (new_jwt_service srv
            (client (single "c:3") "app:")
            (del srv (client (single "c:3") "app:") (session_redis_key "laptop") both).1
            "k")
          "token"
        ≡ ok claims)
logout_exact_example =
    logout_exact srv (λ s k. s k) (single "c:3") "app:" "k" jwt 0 60 "token" "laptop" claims both
      srv-IsKeyStore tt accepted apart
