-- ===== src/Handler.antt =====
-- internal/handler: the bridge between the MCP server and the tools.
pub mod Bridge
mod Tests
