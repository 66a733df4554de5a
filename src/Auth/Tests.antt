-- ===== src/Auth/Tests.antt =====
-- Runs of the limiter of logins, and of the accounts.
mod Limiting
mod Accounts
