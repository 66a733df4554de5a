-- ===== src/Auth.antt =====
-- controller/internal/auth.
pub mod Limiter
pub mod Passwords
pub mod Accounts
pub mod Sessions
pub mod Tests
