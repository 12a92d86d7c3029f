-- ===== src/Columns/Agreement.antt =====
-- src/pg_schema_column.go: the Parquet and the Iceberg schema of a column fit each other.
use bemi_db.Prelude.{
  ◌≡◌, ◌≢◌, ◌↔◌, refl, String, ◌<>◌, List, [], ◌∷◌, ◌++◌, Option, none, some, Bool, true, false,
  ◌==◌, string_eq, if◌then◌else◌, arith, inl, inr, Bool-cases, ◌&&◌, All, sym, ◌∙◌,
}
use bemi_db.Prelude.Int.{ℤ, pos, ◌≤ℤ◌, is_zero_lem}
use bemi_db.Wire.Text.{int_to_string}
use bemi_db.Columns.Types.{
  PgSchemaColumn, trim_underscores, is_case, switch, user_defined, parquet_cases, iceberg_cases,
  parquet_primitive_types, iceberg_primitive_type, iceberg_decimal,
}
use bemi_db.Columns.Fields.{ParquetSchemaField, decimal_parts, to_parquet_schema_field}

-- The precision of the Parquet decimal is at most 38 digits. Its scale is within its precision
-- when that of the Postgres column is and the column's precision is at most 38.
pub decimal_parts-bounds :
    (scale precision : ℤ)
    → ((decimal_parts scale precision).1 ≤ℤ pos 38)
      × (scale ≤ℤ precision
          → precision ≤ℤ pos 38
          → (decimal_parts scale precision).0 ≤ℤ (decimal_parts scale precision).1)
unfolding decimal_parts
decimal_parts-bounds scale precision = ground arith

abbrev all_names {ℓ} : {A : Type ℓ} → List (List String × A) → List String
all_names [] = []
all_names ((names, result) ∷ cases) = names ++ all_names cases

abbrev HasResults {ℓ} : {A : Type ℓ} → List (List String × Option A) → Type ℓ
HasResults cases = All (λ c. c.1 ≢ none) cases

is_case-append :
    (name : String) (xs ys : List String)
    → is_case name (xs ++ ys) ≡ (if is_case name xs then true else is_case name ys)
unfolding is_case
is_case-append name [] ys = refl
is_case-append name (x ∷ xs) ys = ground (arith, is_case-append name xs ys)

-- A switch whose cases all have a result has none only by its default.
switch-none {ℓ} :
    {A : Type ℓ} (name : String) (cases : List (List String × Option A)) (default : Option A)
    → HasResults cases
    → (switch name cases default ≡ none)
      ↔ ((is_case name (all_names cases) ≡ false) × (default ≡ none))
unfolding switch
switch-none name [] default h = (λ e. (unfold is_case in refl, e), λ e. e.1)
switch-none name ((names, result) ∷ cases) default h = elim (Bool-cases (is_case name names)) [
  | inl e ↦ ground (arith, is_case-append name names (all_names cases))
  | inr e ↦
      ground
        (arith, is_case-append name names (all_names cases), switch-none name cases default h.1)
]

abbrev includes : List String → List String → Bool
includes [] ys = true
includes (x ∷ xs) ys = is_case x ys && includes xs ys

is_case-includes :
    (name : String) (xs ys : List String)
    → includes xs ys ≡ true
    → is_case name xs ≡ true
    → is_case name ys ≡ true
unfolding is_case
is_case-includes name [] ys i h = cc
is_case-includes name (x ∷ xs) ys i h = elim (Bool-cases (name == x)) [
  | inl e ↦ rw ((string_eq.same_iff name x).0 e) (ground arith)
  | inr e ↦ is_case-includes name xs ys (ground arith) (ground arith)
]

module _ (string_to_int : String → Option ℤ) (c : PgSchemaColumn) where
  -- Both switches name the same types.
  cases_include :
      (includes (all_names (parquet_cases c)) (all_names (iceberg_cases string_to_int c)) ≡ true)
      × (includes (all_names (iceberg_cases string_to_int c)) (all_names (parquet_cases c)) ≡ true)
  unfolding is_case
  cases_include = (refl, refl)

  same_cases :
      (name : String)
      → is_case name (all_names (parquet_cases c))
        ≡ is_case name (all_names (iceberg_cases string_to_int c))
  same_cases name =
      let i = cases_include in
      elim (Bool-cases (is_case name (all_names (parquet_cases c)))) [
        | inl e ↦ e ∙ sym (is_case-includes name _ _ i.0 e)
        | inr e ↦ elim (Bool-cases (is_case name (all_names (iceberg_cases string_to_int c)))) [
          | inl e' ↦ cc (is_case-includes name _ _ i.1 e')
          | inr e' ↦ e ∙ sym e'
        ]
      ]

  iceberg_decimal-ne-none :
      (p : ℤ) → string_to_int c.numeric_precision ≡ some p → iceberg_decimal string_to_int c ≢ none
  unfolding iceberg_decimal
  iceberg_decimal-ne-none p h = ground arith

  -- A column's type has a Parquet type exactly when it has an Iceberg type, if the column's numeric
  -- precision is a number. When it has none, the program stops.
  pub unsupported_types :
      (p : ℤ)
      → string_to_int c.numeric_precision ≡ some p
      → (parquet_primitive_types c ≡ none) ↔ (iceberg_primitive_type string_to_int c ≡ none)
  unfolding parquet_primitive_types iceberg_primitive_type
  unsupported_types p h =
      let udt = trim_underscores c.udt_name in
      let d = iceberg_decimal-ne-none p h in
      ground (
        arith,
        same_cases udt,
        switch-none udt (parquet_cases c) (user_defined c ("BYTE_ARRAY", "UTF8")) (ground arith),
        switch-none udt (iceberg_cases string_to_int c) (user_defined c "string") (ground arith),
      )

  -- The decimal types of a numeric column in the two schemas have the same precision and scale, if
  -- the column has a precision, and its scale is not 0.
  pub decimal_types :
      (replace_commas : String → String) (f : ParquetSchemaField) (p s : ℤ)
      → c.udt_name ≡ "numeric"
      → string_to_int c.numeric_precision ≡ some p
      → string_to_int c.numeric_scale ≡ some s
      → int_to_string s ≡ c.numeric_scale
      → p ≢ pos 0
      → c.numeric_scale ≢ "0"
      → to_parquet_schema_field replace_commas string_to_int c ≡ some f
      → iceberg_primitive_type string_to_int c
        ≡ some ("decimal(" <> (f.precision <> (", " <> (f.scale <> ")"))))
  unfolding decimal_parts iceberg_decimal to_parquet_schema_field
  decimal_types replace_commas f p s u hp hs round nz ns e =
      let pq : parquet_primitive_types c ≡ some ("FIXED_LEN_BYTE_ARRAY", "DECIMAL") =
        unfold parquet_primitive_types switch is_case trim_underscores in rw u refl in
      let ic : iceberg_primitive_type string_to_int c ≡ iceberg_decimal string_to_int c =
        unfold iceberg_primitive_type switch is_case trim_underscores in rw u refl in
      ground (
        arith,
        string_eq.same_iff c.udt_name "numeric",
        string_eq.same_iff c.numeric_scale "0",
        is_zero_lem p,
      )
