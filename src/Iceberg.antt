-- ===== src/Iceberg.antt =====
-- The files of an Iceberg table, and how a refresh writes them.
pub mod Files
pub mod Entries
pub mod Manifests
pub mod Metadata
pub mod Storage
pub mod Writer
mod Examples
