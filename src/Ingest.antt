-- ===== src/Ingest.antt =====
-- controller/internal/queryingest: the events that mosdns sends, their queue, their storage and how
-- they are read.
pub mod Events
pub mod Validation
pub mod Filter
pub mod Stats
pub mod Persist
pub mod Diagnostics
pub mod Service
pub mod Pages
mod Tests
