-- ===== src/Auth.antt =====
-- Tokens and access: pkg/models/auth_models.go, pkg/service/jwt_service.go, and the middleware of
-- pkg/middleware/jwt_auth_middleware.go and api_key_auth.go, and pkg/helpers/jwt_helper.go (Helper).
pub mod Claims
pub mod Service
pub mod Middleware
pub mod Helper
mod Tests
