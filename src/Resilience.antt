-- ===== src/Resilience.antt =====
-- internal/resilience: retries and circuit breaking of outgoing requests.
pub mod Retry
pub mod Breaker
mod Tests
