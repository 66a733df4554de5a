-- ===== src/Config/Tests.antt =====
-- Configurations that are loaded.
mod Loading
