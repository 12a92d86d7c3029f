-- ===== src/Wire/Results/Oids.antt =====
-- src/query_handler.go: columnTypeOid, isSystemTableOidColumn, generateRowDescription.
use text.Mathlib.Text.{starts_with}
use bemi_db.Prelude.{
  ℕ, ◌-◌, String, len, List, [], ◌∷◌, Option, none, some, Bool, true, false, ◌&&◌, ◌==◌, nat_eq,
  string_eq, leb, length, if◌then◌else◌,
}
use Prim.Native.String.{slice}
use bemi_db.Wire.Engine.{ColumnType}
use bemi_db.Wire.Message.{FieldDescription}

-- pgtype's constants, the numbers of the Postgres catalog.
abbrev pub bool_oid : ℕ
bool_oid = 16

abbrev pub int8_oid : ℕ
int8_oid = 20

abbrev pub text_oid : ℕ
text_oid = 25

abbrev pub oid_oid : ℕ
oid_oid = 26

abbrev pub numeric_oid : ℕ
numeric_oid = 1700

abbrev pub numeric_array_oid : ℕ
numeric_array_oid = 1231

-- The cases of the switch but `BIGINT`, in order.
abbrev pub type_oids : List (String × ℕ)
type_oids =
    ("BOOLEAN", 16)
    ∷ ("BOOLEAN[]", 1000)
    ∷ ("TINYINT", 21)
    ∷ ("UTINYINT", 21)
    ∷ ("TINYINT[]", 1005)
    ∷ ("UTINYINT[]", 1005)
    ∷ ("SMALLINT", 21)
    ∷ ("SMALLINT[]", 1005)
    ∷ ("USMALLINT", 23)
    ∷ ("USMALLINT[]", 1007)
    ∷ ("INTEGER", 23)
    ∷ ("INTEGER[]", 1007)
    ∷ ("UINTEGER", 20)
    ∷ ("UINTEGER[]", 1016)
    ∷ ("BIGINT[]", 1016)
    ∷ ("UBIGINT", 20)
    ∷ ("UBIGINT[]", 1016)
    ∷ ("HUGEINT", 1700)
    ∷ ("HUGEINT[]", 1231)
    ∷ ("FLOAT", 700)
    ∷ ("FLOAT[]", 1021)
    ∷ ("DOUBLE", 701)
    ∷ ("DOUBLE[]", 1022)
    ∷ ("VARCHAR", 25)
    ∷ ("VARCHAR[]", 1009)
    ∷ ("TIME", 1083)
    ∷ ("TIME[]", 1183)
    ∷ ("DATE", 1082)
    ∷ ("DATE[]", 1182)
    ∷ ("TIMESTAMP", 1114)
    ∷ ("TIMESTAMP[]", 1115)
    ∷ ("TIMESTAMPTZ", 1184)
    ∷ ("TIMESTAMPTZ[]", 1185)
    ∷ ("BLOB", 25)
    ∷ ("BLOB[]", 1009)
    ∷ ("UUID", 2950)
    ∷ ("UUID[]", 2951)
    ∷ ("INTERVAL", 1186)
    ∷ ("INTERVAL[]", 1187)
    ∷ []

unfoldable pub case_of : String → List (String × ℕ) → Option ℕ
case_of key [] = none
case_of key ((name, oid) ∷ cases) = if key == name then some oid else case_of key cases

-- strings.HasSuffix
has_suffix : String → String → Bool
has_suffix s suffix = leb (len suffix) (len s) && slice s (len s - len suffix) (len s) == suffix

unfoldable pub one_of : String → List String → Bool
one_of key [] = false
one_of key (name ∷ names) = if key == name then true else one_of key names

unfoldable pub is_system_table_oid_column : String → Bool
unfolding one_of
is_system_table_oid_column col_name = one_of col_name (
    "oid" ∷ "tableoid" ∷ "relnamespace" ∷ "relowner" ∷ "relfilenode" ∷ "did" ∷ "objoid" ∷ "classoid"
    ∷ [])

unfoldable pub column_type_oid : ColumnType → ℕ
unfolding case_of is_system_table_oid_column has_suffix
column_type_oid col =
    if col.database_type_name == "BIGINT"
    then (if is_system_table_oid_column col.name then oid_oid else int8_oid)
    else elim (case_of col.database_type_name type_oids) [
      | some oid ↦ oid
      | none ↦
          if starts_with col.database_type_name "DECIMAL"
          then (if has_suffix col.database_type_name "[]" then numeric_array_oid else numeric_oid)
          else text_oid
    ]

-- The column that DuckDB returns from SET commands.
unfoldable pub is_success_column : ColumnType → ℕ → Bool
is_success_column col count =
    col.name == "Success" && (column_type_oid col == bool_oid && count == 1)

fields_of : ℕ → List ColumnType → Option (List FieldDescription)
fields_of count [] = some []
fields_of count (col ∷ cols) =
    let rest = fields_of count cols in
    if is_success_column col count then none else elim rest [
      | none ↦ none
      | some fields ↦
          some (record { name = col.name; data_type_oid = column_type_oid col } ∷ fields)
    ]

-- `none` is the nil description.
unfoldable pub generate_row_description : List ColumnType → Option (List FieldDescription)
unfolding fields_of
generate_row_description cols = fields_of (length cols) cols
