-- ===== src/Execution.antt =====
-- internal/execution: the service between the tools and the adapters.
pub mod Cursor
pub mod Types
pub mod Service
pub mod Sources
pub mod Relational
pub mod Query
pub mod Errors
pub mod QueryErrors
