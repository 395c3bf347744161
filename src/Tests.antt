-- ===== src/Tests.antt =====
-- Runs of the operations at concrete inputs.
pub mod Codecs
pub mod Connections
pub mod Services
pub mod Failures
pub mod Files
pub mod TokenFiles
pub mod Handlers
pub mod Imports
pub mod Indexes
pub mod Openers
pub mod MysqlReports
pub mod SqliteReports
pub mod SqliteRuns
pub mod PostgresQueries
pub mod Results
pub mod Tokens
