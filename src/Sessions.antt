-- ===== src/Sessions.antt =====
-- The token service of pkg/service/jwt_service.go with its session store: NewJWTService over the client
-- of pkg/infrastructure/redis/redis.go, which ValidateToken asks whether a session's key exists.
pub mod Logout
mod Tests
use msa_core.Prelude.{String, Bool}
use msa_core.Prelude.Result.{Error, error, Result, ok, err}
use msa_core.Auth.Service.{JwtService}
use msa_core.Redis.{RedisClient, Outcome, value, absent, failed, panics, Server, exists}

-- A panic ends the request. It is an error here, as the others are: the token is not accepted.
abbrev pub result_of : Outcome Bool → Result Bool
result_of (value b) = ok b
result_of absent = err (error "redis: nil")
result_of (failed e) = err e
result_of panics = err (error "nil pointer dereference")

-- `NewJWTService`, when the server is in the given state
unfoldable pub new_jwt_service :
    {V F S : Type 0} → Server V F S → RedisClient → S → String → JwtService
new_jwt_service srv c s secret_key = record {
  secret_key = secret_key;
  exists = λ key. result_of (exists srv c key s).0;
}
