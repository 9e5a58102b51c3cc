-- ===== src/Streaming.antt =====
-- internal/streaming: the SSE connections of the server.
pub mod Tracker
mod Tests
