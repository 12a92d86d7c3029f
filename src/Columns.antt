-- ===== src/Columns.antt =====
-- src/pg_schema_column.go: how a Postgres column becomes a Parquet and an Iceberg field.
pub mod Types
pub mod Fields
pub mod Values
pub mod Agreement
mod Examples
