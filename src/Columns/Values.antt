-- ===== src/Columns/Values.antt =====
-- src/pg_schema_column.go: FormatParquetValue and parquetPrimitiveValue, which turn the text of a
-- COPY value into a value of a Parquet row.
use bemi_db.Prelude.{
  ℕ, suc, ◌-◌, ◌/◌, ◌%◌, String, List, [], ◌∷◌, Option, none, some, Bool, ◌==◌, string_eq, ltb,
  if◌then◌else◌,
}
use bemi_db.Prelude.Int.{ℤ, pos, negsuc, ◌+ℤ◌, ◌-ℤ◌}
use bemi_db.Columns.Types.{
  PgSchemaColumn, trim_underscores, is_case, text_names, has_micros, user_defined,
}

-- What parsing a time with a layout gives: the time since 1970 in three units.
pub record ParsedTime : Type 0 where
  pub unix : ℤ
  pub unix_milli : ℤ
  pub unix_micro : ℤ

pub data ParquetValue : Type 0 where
  plain : String → ParquetValue
  int32 : ℤ → ParquetValue
  int64 : ℤ → ParquetValue
  uint64 : ℕ → ParquetValue
  -- a number that strconv.ParseFloat has read, with its bits
  float : ℕ → String → ParquetValue
  boolean : Bool → ParquetValue

-- nil, one value, or the values of an array
pub data FormattedValue : Type 0 where
  missing : FormattedValue
  one : ParquetValue → FormattedValue
  many : List ParquetValue → FormattedValue

-- The parsers of strconv, time and encoding/csv, and the functions of strings; none is an error.
pub record Parsers : Type 0 where
  pub string_to_int : String → Option ℤ
  pub parse_uint : ℕ → String → Option ℕ
  -- of bits and text: whether it is NaN
  pub parse_float : ℕ → String → Option Bool
  pub parse_bool : String → Option Bool
  pub parse_time : String → String → Option ParsedTime
  pub string_date_to_time : String → Option ParsedTime
  pub read_csv_record : String → Option (List String)
  pub trim_right_spaces : String → String
  pub trim_braces : String → String
  pub double_escaped_quotes : String → String

-- `int32(i)`, which keeps the low 32 bits.
unfoldable pub to_int32 : ℤ → ℤ
to_int32 (pos n) =
    let low = n % 4294967296 in if ltb low 2147483648 then pos low else negsuc (4294967295 - low)
to_int32 (negsuc n) =
    let low = n % 4294967296 in if ltb low 2147483648 then negsuc low else pos (4294967295 - low)

-- Go's division truncates.
unfoldable pub seconds_to_days : ℤ → ℤ
seconds_to_days (pos n) = pos (n / 86400)
seconds_to_days (negsuc n) = pos 0 -ℤ pos (suc n / 86400)

abbrev mapped : {A B : Type 0} → (A → B) → Option A → Option B
mapped f none = none
mapped f (some a) = some (f a)

abbrev or_else : {A : Type 0} → Option A → Option A → Option A
or_else none other = other
or_else (some a) other = some a

module _ (parsers : Parsers) where
  abbrev micros_or_millis : ℤ → ℤ → Bool → Option ParsedTime → Option ParquetValue
  micros_or_millis micro_offset milli_offset micros t =
      mapped
        (λ t. int64 (if micros then micro_offset +ℤ t.unix_micro else milli_offset +ℤ t.unix_milli))
        t

  abbrev float_value : ℕ → String → Option ParquetValue
  float_value bits value =
      mapped (λ is_nan. if is_nan then plain "NaN" else float bits value)
        (parsers.parse_float bits value)

  -- With the offset in minutes or, failing that, in hours.
  abbrev parse_timestamptz : Bool → String → Option ParsedTime
  parse_timestamptz micros value =
      if micros
      then or_else (parsers.parse_time "2006-01-02 15:04:05.999999-07:00" value)
          (parsers.parse_time "2006-01-02 15:04:05.999999-07" value)
      else or_else (parsers.parse_time "2006-01-02 15:04:05.999-07:00" value)
          (parsers.parse_time "2006-01-02 15:04:05.999-07" value)

  -- none is a panic
  unfoldable pub parquet_primitive_value : PgSchemaColumn → String → Option ParquetValue
  unfolding to_int32 seconds_to_days
  parquet_primitive_value c value =
      let udt = trim_underscores c.udt_name in
      let micros = has_micros c in
      if udt == "bpchar"
      then some (plain (parsers.trim_right_spaces value))
      else if is_case udt text_names
      then some (plain value)
      else if is_case udt ("bytea" ∷ "numeric" ∷ "uuid" ∷ [])
      then some (plain value)
      else if is_case udt ("int2" ∷ "int4" ∷ [])
      then mapped (λ i. int32 (to_int32 i)) (parsers.string_to_int value)
      else if udt == "int8"
      then mapped (λ i. int64 i) (parsers.string_to_int value)
      else if udt == "xid"
      then mapped (λ i. uint64 i) (parsers.parse_uint 32 value)
      else if udt == "xid8"
      then mapped (λ i. uint64 i) (parsers.parse_uint 64 value)
      else if udt == "float4"
      then float_value 32 value
      else if udt == "float8"
      then float_value 64 value
      else if udt == "bool"
      then mapped (λ b. boolean b) (parsers.parse_bool value)
      else if udt == "timestamp"
      then micros_or_millis (pos 0) (pos 0) micros (
          parsers.parse_time
            (if micros then "2006-01-02 15:04:05.999999" else "2006-01-02 15:04:05.999") value)
      else if udt == "timestamptz"
      then micros_or_millis (pos 0) (pos 0) micros (parse_timestamptz micros value)
      else if udt == "time"
      then micros_or_millis (pos 62167219200000000) (pos 62167219200000) micros
          (parsers.parse_time (if micros then "15:04:05.999999" else "15:04:05.999") value)
      else if udt == "timetz"
      then micros_or_millis (pos 62167219200000000) (pos 62167219200000) micros
          (parsers.parse_time (if micros then "15:04:05.999999-07" else "15:04:05.999-07") value)
      else if udt == "date"
      then mapped (λ t. int64 (seconds_to_days t.unix)) (parsers.string_date_to_time value)
      else user_defined c (plain value)

  unfoldable pub primitive_values : PgSchemaColumn → List String → Option (List ParquetValue)
  primitive_values c [] = some []
  primitive_values c (v ∷ vs) =
      let rest = primitive_values c vs in
      elim (parquet_primitive_value c v) [ none ↦ none | some x ↦ mapped (λ xs. x ∷ xs) rest ]

  abbrev array_values : PgSchemaColumn → Option (List String) → Option FormattedValue
  array_values c none = none
  array_values c (some vs) = mapped (λ xs. many xs) (primitive_values c vs)

  unfoldable pub format_parquet_value : PgSchemaColumn → String → Option FormattedValue
  format_parquet_value c value =
      if value == "BEMIDB_NULL"
      then some missing
      else if c.data_type == "ARRAY"
      then (let csv = parsers.trim_braces value in
          if csv == ""
          then some (many [])
          else array_values c (parsers.read_csv_record (parsers.double_escaped_quotes csv)))
      else mapped (λ x. one x) (parquet_primitive_value c value)
