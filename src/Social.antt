-- ===== src/Social.antt =====
-- backend_repeat/internal/social.
pub mod Repo
pub mod Service
pub mod Handler
pub mod Relation
pub mod Contract
