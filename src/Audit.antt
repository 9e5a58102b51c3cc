-- ===== src/Audit.antt =====
-- internal/audit: the buffered emitter of audit events.
pub mod Buffered
mod Tests
