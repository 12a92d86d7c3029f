-- ===== src/Names.antt =====
-- src/custom_types.go: sets, and the names of schemas, tables and fields with their SQL.
pub mod Sets
use bemi_db.Prelude.{String, ◌<>◌, Bool, ◌==◌, string_eq, if◌then◌else◌}

pub record IcebergSchemaTable : Type 0 where
  pub schema : String
  pub table : String

pub record IcebergTableField : Type 0 where
  pub name : String
  pub field_type : String
  pub required : Bool
  pub is_list : Bool

pub record QuerySchemaTable : Type 0 where
  pub schema : String
  pub table : String
  pub alias : String

pub record PgSchemaTable : Type 0 where
  pub schema : String
  pub table : String
  pub parent_partitioned_table : String

-- `"%s"."%s"`
abbrev quoted : String → String → String
quoted schema table = "\"" <> (schema <> ("\".\"" <> (table <> "\"")))

unfoldable pub iceberg_table_string : IcebergSchemaTable → String
iceberg_table_string t = quoted t.schema t.table

unfoldable pub to_sql : IcebergTableField → String
to_sql field =
    "\""
    <> (field.name
        <> ("\" "
            <> (field.field_type
                <> ((if field.is_list then "[]" else "")
                    <> (if field.required then " NOT NULL" else "")))))

unfoldable pub query_to_iceberg_schema_table : QuerySchemaTable → IcebergSchemaTable
query_to_iceberg_schema_table t =
    if t.schema == ""
    then record { schema = "public"; table = t.table }
    else record { schema = t.schema; table = t.table }

unfoldable pub pg_table_string : PgSchemaTable → String
pg_table_string t = quoted t.schema t.table

unfoldable pub parent_partitioned_table_string : PgSchemaTable → String
parent_partitioned_table_string t =
    if t.parent_partitioned_table == "" then "" else quoted t.schema t.parent_partitioned_table

unfoldable pub to_config_arg : PgSchemaTable → String
to_config_arg t = t.schema <> ("." <> t.table)

unfoldable pub pg_to_iceberg_schema_table : PgSchemaTable → IcebergSchemaTable
pg_to_iceberg_schema_table t = record { schema = t.schema; table = t.table }
