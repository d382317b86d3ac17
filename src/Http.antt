-- ===== src/Http.antt =====
-- The HTTP side: gin's context and answers, and the router of internal/http.
pub mod Context
pub mod Call
pub mod Middleware
pub mod Router
pub mod Guard
pub mod Acting
pub mod Commenting
mod Sample
mod Tests
