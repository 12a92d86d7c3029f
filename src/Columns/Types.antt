-- ===== src/Columns/Types.antt =====
-- src/pg_schema_column.go: PgSchemaColumn, parquetPrimitiveTypes and icebergPrimitiveType. A call
-- that panics returns none. Integers in texts are read by strconv, a parameter.
use text.Mathlib.Text.{starts_with}
use Prim.Native.String.{slice, len}
use bemi_db.Prelude.{
  ℕ, zero, suc, String, ◌<>◌, List, [], ◌∷◌, Option, none, some, Bool, true, false, ◌==◌, string_eq,
  if◌then◌else◌,
}
use bemi_db.Prelude.Int.{ℤ, pos, ltb_ℤ}
use bemi_db.Wire.Text.{int_to_string}

pub record PgSchemaColumn : Type 0 where
  pub column_name : String
  pub data_type : String
  pub udt_name : String
  pub is_nullable : String
  pub ordinal_position : String
  pub character_maximum_length : String
  pub numeric_precision : String
  pub numeric_scale : String
  pub datetime_precision : String
  pub namespace : String
  pub part_of_primary_key : Bool

abbrev pub parquet_max_decimal_precision : ℤ
parquet_max_decimal_precision = pos 38

-- strings.TrimLeft(s, "_"), with the length of the text as fuel
trim_underscores_from : ℕ → String → String
trim_underscores_from zero s = s
trim_underscores_from (suc fuel) s =
    let rest = trim_underscores_from fuel (slice s 1 (len s)) in
    if starts_with s "_" then rest else s

unfoldable pub trim_underscores : String → String
unfolding trim_underscores_from
trim_underscores s = trim_underscores_from (len s) s

-- One of the names of a case.
unfoldable pub is_case : String → List String → Bool
is_case name [] = false
is_case name (c ∷ cases) = if name == c then true else is_case name cases

-- A switch over a text: its cases with their results, and the default.
unfoldable pub switch {ℓ} : {A : Type ℓ} → String → List (List String × A) → A → A
unfolding is_case
switch name [] default = default
switch name ((names, result) ∷ cases) default =
    let rest = switch name cases default in if is_case name names then result else rest

abbrev pub text_names : List String
text_names =
    "varchar" ∷ "char" ∷ "text" ∷ "bpchar" ∷ "bit" ∷ "interval" ∷ "jsonb" ∷ "json" ∷ "point"
    ∷ "line" ∷ "lseg" ∷ "box" ∷ "path" ∷ "polygon" ∷ "circle" ∷ "cidr" ∷ "inet" ∷ "macaddr"
    ∷ "macaddr8" ∷ "tsvector" ∷ "xml" ∷ "pg_snapshot" ∷ []

-- Six digits after the second, where the source asks for the precision of a time.
abbrev pub has_micros : PgSchemaColumn → Bool
has_micros c = c.datetime_precision == "6"

-- The default case: a type that is not built in is text.
abbrev pub user_defined : {A : Type 0} → PgSchemaColumn → A → Option A
user_defined c a = if c.namespace == "pg_catalog" then none else some a

abbrev pub parquet_cases : PgSchemaColumn → List (List String × Option (String × String))
parquet_cases c =
    (text_names, some ("BYTE_ARRAY", "UTF8"))
    ∷ ("bytea" ∷ "uuid" ∷ [], some ("BYTE_ARRAY", "UTF8"))
    ∷ ("date" ∷ [], some ("INT32", "DATE"))
    ∷ ("int2" ∷ "int4" ∷ [], some ("INT32", ""))
    ∷ ("int8" ∷ [], some ("INT64", ""))
    ∷ ("float4" ∷ [], some ("FLOAT", ""))
    ∷ ("float8" ∷ [], some ("DOUBLE", ""))
    ∷ ("numeric" ∷ [], some ("FIXED_LEN_BYTE_ARRAY", "DECIMAL"))
    ∷ ("xid" ∷ [], some ("INT32", "UINT_32"))
    ∷ ("xid8" ∷ [], some ("INT64", "UINT_64"))
    ∷ ("bool" ∷ [], some ("BOOLEAN", ""))
    ∷ (
      "time" ∷ "timetz" ∷ [],
      some (if has_micros c then ("INT64", "TIME_MICROS") else ("INT32", "TIME_MILLIS")),
    )
    ∷ (
      "timestamp" ∷ "timestamptz" ∷ [],
      some ("INT64", if has_micros c then "TIMESTAMP_MICROS" else "TIMESTAMP_MILLIS"),
    )
    ∷ []

unfoldable pub parquet_primitive_types : PgSchemaColumn → Option (String × String)
parquet_primitive_types c =
    switch (trim_underscores c.udt_name) (parquet_cases c) (user_defined c ("BYTE_ARRAY", "UTF8"))

module _ (string_to_int : String → Option ℤ) where
  -- `precision > 38` becomes 38.
  abbrev pub capped : ℤ → ℤ
  capped precision =
      if ltb_ℤ parquet_max_decimal_precision precision
      then parquet_max_decimal_precision
      else precision

  unfoldable pub iceberg_decimal : PgSchemaColumn → Option String
  iceberg_decimal c =
      if c.numeric_scale == "0" then some "decimal" else elim (string_to_int c.numeric_precision) [
        | none ↦ none
        | some precision ↦
            some (
              "decimal("
              <> (int_to_string (capped precision) <> (", " <> (c.numeric_scale <> ")"))))
      ]

  abbrev pub iceberg_cases : PgSchemaColumn → List (List String × Option String)
  iceberg_cases c =
      (text_names, some "string")
      ∷ ("uuid" ∷ [], some "uuid")
      ∷ ("int2" ∷ "int4" ∷ "xid" ∷ [], some "int")
      ∷ ("int8" ∷ "xid8" ∷ [], some "long")
      ∷ ("float4" ∷ "float8" ∷ [], some "float")
      ∷ ("numeric" ∷ [], iceberg_decimal c)
      ∷ ("bool" ∷ [], some "boolean")
      ∷ ("date" ∷ [], some "date")
      ∷ ("bytea" ∷ [], some "binary")
      ∷ (
        "timestamp" ∷ "timestamptz" ∷ [],
        some (if c.datetime_precision == "9" then "timestamp_ns" else "timestamp"),
      )
      ∷ ("time" ∷ "timetz" ∷ [], some "time")
      ∷ []

  unfoldable pub iceberg_primitive_type : PgSchemaColumn → Option String
  iceberg_primitive_type c =
      switch (trim_underscores c.udt_name) (iceberg_cases c) (user_defined c "string")
