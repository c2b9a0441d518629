-- ===== src/Orchestrator.antt =====
-- hybrid_orchestrator.py: how the parts are put together.
pub mod Patterns
pub mod Keywords
pub mod TaskTypes
pub mod Routing
pub mod Detection
pub mod Selection
pub mod Routed
pub mod Caching
pub mod Trusted
pub mod Tests
