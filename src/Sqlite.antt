-- ===== src/Sqlite.antt =====
-- The SQLite adapter, internal/connection/sqlite.
pub mod Codes
pub mod Errors
pub mod Runtime
pub mod Policy
