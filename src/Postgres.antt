-- ===== src/Postgres.antt =====
-- internal/connection/postgres: the bounded reading of a query's result.
pub mod Budget
pub mod Rows
pub mod Opener
pub mod Errors
pub mod Query
