-- ===== src/Auth.antt =====
-- Who a request is from: API keys (internal/auth/apikey.go), tokens (internal/auth/jwt.go) and the
-- middleware that reads them (internal/api/middleware/auth.go).
pub mod Keys
pub mod ApiKey
pub mod Middleware
pub mod Tokens
pub mod Proven
pub mod Sample
pub mod Tests
