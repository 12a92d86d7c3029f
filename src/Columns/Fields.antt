-- ===== src/Columns/Fields.antt =====
-- src/pg_schema_column.go: the fields of a column in the Parquet and the Iceberg schema.
use bemi_db.Prelude.{
  String, ◌<>◌, List, [], ◌∷◌, ◌++◌, Option, none, some, Bool, not, ◌==◌, string_eq, if◌then◌else◌,
}
use bemi_db.Prelude.Int.{ℤ, pos, ◌+ℤ◌, ltb_ℤ, is_zero}
use bemi_db.Wire.Text.{int_to_string}
use bemi_db.Columns.Types.{
  PgSchemaColumn, parquet_max_decimal_precision, parquet_primitive_types, iceberg_primitive_type,
}

pub record ParquetSchemaField : Type 0 where
  pub name : String
  pub field_type : String
  pub repetition_type : String
  pub field_id : String
  pub field_length : String
  pub converted_type : String
  pub scale : String
  pub precision : String
  pub nested_type : String
  pub nested_converted_type : String

-- A type, or a list of elements of it.
pub data IcebergType : Type 0 where
  primitive : String → IcebergType
  list_of : String → String → IcebergType

pub record IcebergSchemaField : Type 0 where
  pub id : ℤ
  pub name : String
  pub field_type : IcebergType
  pub required : Bool

-- The two texts that make a Parquet field: its tag and, of a list, the tag of its elements.
pub record FieldTags : Type 0 where
  pub tag : String
  pub nested_tag : Option String

-- `, ` between the texts.
unfoldable pub join_tags : List String → String
join_tags [] = ""
join_tags (t ∷ []) = t
join_tags (t ∷ u ∷ ts) = t <> (", " <> join_tags (u ∷ ts))

-- `if value != "" { append(key + value) }`
abbrev tag_if : String → String → List String
tag_if key value = if value == "" then [] else (key <> value) ∷ []

unfoldable pub field_tags : ParquetSchemaField → FieldTags
field_tags f = record {
  tag = join_tags (
      ("name=" <> f.name)
      ∷ ("type=" <> f.field_type)
      ∷ ("repetitiontype=" <> f.repetition_type)
      ∷ ("fieldid=" <> f.field_id)
      ∷ (tag_if "length=" f.field_length
          ++ (tag_if "convertedtype=" f.converted_type
              ++ (tag_if "scale=" f.scale ++ tag_if "precision=" f.precision))));
  nested_tag =
      if f.nested_type == ""
      then none
      else some (
          join_tags (
            "name=element"
            ∷ ("type=" <> f.nested_type)
            ∷ tag_if "convertedtype=" f.nested_converted_type));
}

-- The scale and the precision of a numeric column, with half of the digits where Postgres has none.
unfoldable pub decimal_parts : ℤ → ℤ → ℤ × ℤ
decimal_parts scale precision =
    if ltb_ℤ parquet_max_decimal_precision precision
    then (scale, parquet_max_decimal_precision)
    else if is_zero precision
    then (pos 19, pos 19)
    else (scale, precision)

-- `replace_commas` is strings.ReplaceAll(name, ",", "_").
module _ (replace_commas : String → String) (string_to_int : String → Option ℤ) where
  unfoldable pub normalized_column_name : PgSchemaColumn → String
  normalized_column_name c = replace_commas c.column_name

  abbrev pub is_array : PgSchemaColumn → Bool
  is_array c = c.data_type == "ARRAY"

  abbrev with_decimal : ParquetSchemaField → ℤ × ℤ → ParquetSchemaField
  with_decimal f (scale, precision) = record f {
    scale = int_to_string scale;
    precision = int_to_string precision;
    field_length = int_to_string (scale +ℤ precision);
  }

  abbrev numeric_field : ParquetSchemaField → Option ℤ → Option ℤ → Option ParquetSchemaField
  numeric_field f (some scale) (some precision) =
      some (with_decimal f (decimal_parts scale precision))
  numeric_field f _ _ = none

  abbrev as_list : ParquetSchemaField → ParquetSchemaField
  as_list f = record f {
    nested_type = f.field_type;
    nested_converted_type = f.converted_type;
    field_type = "LIST";
    converted_type = "";
  }

  abbrev base_field : PgSchemaColumn → String → String → ParquetSchemaField
  base_field c primitive_type converted_type = record {
    name = normalized_column_name c;
    field_type = primitive_type;
    repetition_type = if c.is_nullable == "YES" then "OPTIONAL" else "REQUIRED";
    field_id = c.ordinal_position;
    field_length = "";
    converted_type = converted_type;
    scale = "";
    precision = "";
    nested_type = "";
    nested_converted_type = "";
  }

  unfoldable pub to_parquet_schema_field : PgSchemaColumn → Option ParquetSchemaField
  to_parquet_schema_field c = elim (parquet_primitive_types c) [
    | none ↦ none
    | some (primitive_type, converted_type) ↦
        let f = base_field c primitive_type converted_type in
        if c.udt_name == "numeric"
        then numeric_field f (string_to_int c.numeric_scale) (string_to_int c.numeric_precision)
        else if is_array c
        then some (as_list f)
        else some f
  ]

  unfoldable pub to_parquet_schema_field_map : PgSchemaColumn → Option FieldTags
  to_parquet_schema_field_map c = elim (to_parquet_schema_field c) [
    | none ↦ none
    | some f ↦ some (field_tags f)
  ]

  unfoldable pub to_iceberg_schema_field_map : PgSchemaColumn → Option IcebergSchemaField
  to_iceberg_schema_field_map c = elim (string_to_int c.ordinal_position) [
    | none ↦ none
    | some id ↦ elim (iceberg_primitive_type string_to_int c) [
      | none ↦ none
      | some t ↦ some (record {
        id = id;
        name = normalized_column_name c;
        field_type = if is_array c then list_of t c.ordinal_position else primitive t;
        required = not (c.is_nullable == "YES");
      })
    ]
  ]
