-- ===== src/RateLimit.antt =====
-- internal/ratelimit: the limiters and the middleware around them.
pub mod Rate
pub mod Ip
pub mod User
pub mod Provider
pub mod Semaphore
pub mod Middleware
mod Tests
