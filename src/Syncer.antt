-- ===== src/Syncer.antt =====
-- src/syncer.go: the synchronisation of a database, table after table, on two connections.
pub mod Connections
pub mod Retry
pub mod Catalog
pub mod Cleanup
pub mod Tables
pub mod Run
mod Examples
