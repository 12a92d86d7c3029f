-- ===== src/Columns/Examples.antt =====
-- Tests of the model of src/pg_schema_column.go, and its theorems at a numeric column.
use bemi_db.Prelude.{◌≡◌, ◌↔◌, refl, String, ◌<>◌, Option, none, some, false}
use bemi_db.Prelude.Int.{ℤ, pos, ◌+ℤ◌}
use bemi_db.Wire.Text.{int_to_string}
use bemi_db.Columns.Types.{
  PgSchemaColumn, trim_underscores, is_case, switch, parquet_primitive_types,
  iceberg_primitive_type,
}
use bemi_db.Columns.Fields.{
  ParquetSchemaField, decimal_parts, to_parquet_schema_field, field_tags, join_tags,
  normalized_column_name,
}
use bemi_db.Columns.Agreement.{unsupported_types, decimal_types}

abbrev price : PgSchemaColumn
price = record {
  column_name = "price";
  data_type = "numeric";
  udt_name = "numeric";
  is_nullable = "YES";
  ordinal_position = "3";
  character_maximum_length = "0";
  numeric_precision = "10";
  numeric_scale = "10";
  datetime_precision = "0";
  namespace = "pg_catalog";
  part_of_primary_key = false;
}

-- Every text is the number 10.
abbrev ten : String → Option ℤ
ten text = some (pos 10)

abbrev price_field : ParquetSchemaField
price_field = record {
  name = "price";
  field_type = "FIXED_LEN_BYTE_ARRAY";
  repetition_type = "OPTIONAL";
  field_id = "3";
  field_length = "20";
  converted_type = "DECIMAL";
  scale = "10";
  precision = "10";
  nested_type = "";
  nested_converted_type = "";
}

price_parquet : to_parquet_schema_field (λ name. name) ten price ≡ some price_field
unfolding to_parquet_schema_field parquet_primitive_types switch is_case trim_underscores
    decimal_parts int_to_string ◌+ℤ◌ normalized_column_name
price_parquet = refl

price_tag :
    (field_tags price_field).tag
    ≡ "name=price, type=FIXED_LEN_BYTE_ARRAY, repetitiontype=OPTIONAL, fieldid=3, length=20, convertedtype=DECIMAL, scale=10, precision=10"
unfolding field_tags join_tags
price_tag = refl

unsupported_types_example :
    (parquet_primitive_types price ≡ none) ↔ (iceberg_primitive_type ten price ≡ none)
unsupported_types_example = unsupported_types ten price (pos 10) refl

decimal_types_example :
    iceberg_primitive_type ten price ≡ some ("decimal(" <> ("10" <> (", " <> ("10" <> ")"))))
unfolding int_to_string
decimal_types_example =
    decimal_types ten price (λ name. name) price_field (pos 10) (pos 10) refl refl refl refl
      (λ e. cc) (λ e. cc) price_parquet
