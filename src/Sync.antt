-- ===== src/Sync.antt =====
-- src/syncer_table.go with what it uses of src/storage_interface.go and src/utils.go: the copy of
-- one Postgres table.
pub mod Metadata
pub mod Window
pub mod Batch
pub mod Load
pub mod Parquet
pub mod Copy
mod Examples
pub mod Table
