-- ===== src/Tools.antt =====
-- The tools of internal/tools, which the agent and the MCP bridge call.
pub mod Errors
pub mod Owner
pub mod Remediation
pub mod Watch
pub mod Create
pub mod Poll
mod Tests
