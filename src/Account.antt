-- ===== src/Account.antt =====
-- backend_repeat/internal/account, auth and middleware/jwt.
pub mod Repo
pub mod Token
pub mod Service
pub mod Auth
pub mod Session
pub mod Guard
pub mod Accepting
pub mod Revoking
pub mod Renaming
pub mod Handler
pub mod Entering
pub mod Rows
mod Tests
