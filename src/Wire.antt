-- ===== src/Wire.antt =====
-- The Postgres wire protocol server: src/postgres.go and the protocol half of src/query_handler.go.
pub mod Text
pub mod Engine
pub mod Message
pub mod Results
pub mod Statement
pub mod Handlers
pub mod Exchange
pub mod Simple
mod Examples
