-- ===== src/Severity.antt =====
-- internal/severity: how grave an incident is, from alerts, alerting rules and an LLM.
pub mod Rank
pub mod Tiers
pub mod Pipeline
mod Tests
