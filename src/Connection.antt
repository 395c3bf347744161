-- ===== src/Connection.antt =====
-- internal/connection: definitions of data sources, their registry, their import and their store.
pub mod Definition
pub mod Manager
pub mod Connector
pub mod Importer
pub mod FileStore
