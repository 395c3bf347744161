-- ===== src/Mysql.antt =====
-- The MySQL adapter, internal/connection/mysql.
pub mod Errors
