-- ===== src/Session.antt =====
-- internal/session and api/apifrontend/v1alpha1: investigation sessions.
pub mod Phase
pub mod Crd
pub mod Labels
pub mod Trimming
pub mod Service
pub mod Lifecycle
pub mod Reinvoke
pub mod Decorator
pub mod Memory
mod Tests
