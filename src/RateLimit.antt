-- ===== src/RateLimit.antt =====
-- backend_repeat/internal/middleware/ratelimit.
pub mod Limiter
pub mod Fixed
pub mod Refusal
pub mod Script
pub mod Window
mod Tests
