-- ===== src/Auth.antt =====
-- internal/auth: the validation of tokens, with its caches, and what is done with the user.
pub mod Replay
pub mod Sanitize
pub mod Delegation
mod Tests
pub mod Jwks
pub mod Config
pub mod Claims
pub mod Jwt
pub mod Middleware
