-- ===== src/Remapper.antt =====
-- src/query_remapper*.go and src/parser_*.go: the statements of a client rewritten for DuckDB.
pub mod Syntax
pub mod Text
pub mod Rewrite
pub mod Formats
pub mod Names
pub mod Macros
pub mod SystemTables
pub mod Calls
pub mod Functions
pub mod Casts
pub mod Expressions
pub mod State
pub mod Tables
pub mod Where
pub mod Targets
pub mod Steps
pub mod Walk
pub mod Statements
pub mod Sizes
pub mod Examples
