-- ===== src/Rules.antt =====
-- controller/internal/rules.
pub mod Types
pub mod Normalize
pub mod Validate
pub mod Snapshot
pub mod Store
pub mod Statements
pub mod Sources
pub mod Subscriptions
pub mod Targets
pub mod Publish
pub mod Read
pub mod Catalog
pub mod Edit
pub mod Reconcile
pub mod Subscribe
pub mod Run
pub mod Parsing
pub mod Listing
pub mod Tests
