-- ===== src/Security.antt =====
-- web_security.py: what a request passes before its handler runs.
pub mod RateLimit
pub mod Window
pub mod Limit
pub mod Middleware
pub mod Gate
pub mod Tests
