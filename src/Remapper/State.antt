-- ===== src/Remapper/State.antt =====
-- src/query_remapper_table.go and src/query_remapper.go: what the remapper reads and keeps. The
-- remapper is shared by the connections; here one statement is rewritten at a time.
use bemi_db.Prelude.{ℕ, String, List, Option, Bool}
use bemi_db.Names.{IcebergSchemaTable, IcebergTableField, PgSchemaTable}
use bemi_db.Remapper.Rewrite.{Rewrite, done, ◌>>=◌}

-- A statement that DuckDB is given, with the text of the columns or of the rows.
pub data DuckdbStatement : Type 0 where
  create_schema : String → DuckdbStatement
  create_table : IcebergSchemaTable → List String → DuckdbStatement
  drop_table : IcebergSchemaTable → DuckdbStatement
  -- the transaction that replaces the rows of pg_stat_user_tables
  replace_stat_user_tables : List String → DuckdbStatement

pub record Environment : Type 0 where
  -- the names of the macros and of the tables that stand for those of the catalog
  pub catalog_macros : List String
  pub schema_macros : List String
  pub catalog_tables : List String
  pub schema_tables : List String
  -- the reader: the tables at the n-th call, their fields, the path of their metadata, and when they
  -- were last synchronised; none is an error
  pub listing : ℕ → Option (List IcebergSchemaTable)
  pub table_fields : IcebergSchemaTable → Option (List IcebergTableField)
  pub metadata_file_path : IcebergSchemaTable → String
  pub last_synced_at : PgSchemaTable → Option ℕ
  -- whether there is a DuckDB, and which statements it fails
  pub has_duckdb : Bool
  pub fails : DuckdbStatement → Bool
  pub contains_upper : String → Bool

pub record RemapperState : Type 0 where
  -- the field icebergSchemaTables
  pub iceberg_tables : List IcebergSchemaTable
  -- the statements DuckDB has executed, the last one first
  pub executed : List DuckdbStatement
  -- how often the tables have been listed
  pub listings : ℕ

abbrev pub Walk : Type 0 → Type 0
Walk A = RemapperState → Rewrite (A × RemapperState)

unfoldable pub pure : {A : Type 0} → A → Walk A
pure a w = done (a, w)

unfoldable pub lift : {A : Type 0} → Rewrite A → Walk A
lift o w = o >>= λ a. done (a, w)

infixl 5 ◌>>>◌
unfoldable pub ◌>>>◌ : {A B : Type 0} → Walk A → (A → Walk B) → Walk B
◌>>>◌ m k w = m w >>= λ (a, w'). k a w'
