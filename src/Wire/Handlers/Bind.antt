-- ===== src/Wire/Handlers/Bind.antt =====
-- src/query_handler.go: the parameters of a Bind message (HandleBindQuery's loop, castTextParam).
use bemi_db.Prelude.{
  ℕ, ◌+◌, ◌-◌, ◌*◌, ◌^◌, String, List, [], ◌∷◌, Option, none, some, Bool, true, false, ◌||◌, ◌==◌,
  nat_eq, ltb, length, get_elem?, if◌then◌else◌,
}
use bemi_db.Prelude.Int.{ℤ, pos, negsuc}
use bemi_db.Wire.Engine.{Value, Engine, Byte}
use bemi_db.Wire.Message.{HandlerError, unsupported_parameter}
use bemi_db.Wire.Statement.{PreparedStatement}

-- binary.BigEndian.Uint32 and Uint64, by the length of the slice.
unfoldable pub big_endian : ℕ → List Byte → ℕ
big_endian acc [] = acc
big_endian acc (b ∷ bytes) = big_endian (acc * 256 + b) bytes

-- int32(n) and int64(n) of an unsigned number of `w` bits.
unfoldable pub signed : ℕ → ℕ → ℤ
signed w n = if ltb n (2 ^ (w - 1)) then pos n else negsuc (2 ^ w - 1 - n)

-- pgtype's constants, the numbers of the Postgres catalog.
abbrev date_oid : ℕ
date_oid = 1082

abbrev timestamp_oid : ℕ
timestamp_oid = 1114

abbrev timestamptz_oid : ℕ
timestamptz_oid = 1184

abbrev timestamp_parse_formats : List String
timestamp_parse_formats =
    "2006-01-02 15:04:05.999999999Z07:00" ∷ "2006-01-02 15:04:05.999999999Z07"
    ∷ "2006-01-02 15:04:05.999999999" ∷ "2006-01-02 15:04:05"
    ∷ "2006-01-02T15:04:05.999999999Z07:00" ∷ "2006-01-02T15:04:05.999999999"
    ∷ "2006-01-02T15:04:05" ∷ "2006-01-02" ∷ []

-- How a parameter is sent: `none` where the source indexes its format codes out of range.
unfoldable pub text_format : List ℕ → ℕ → Option Bool
text_format [] i = some true
text_format (c ∷ []) i = some (c == 0)
text_format (c ∷ d ∷ codes) i = elim (get_elem? (c ∷ d ∷ codes) i) [
  | none ↦ none
  | some e ↦ some (e == 0)
]

pub data Bound : Type 0 where
  -- an index out of range
  panicked : Bound
  failed : HandlerError → Bound
  variables : List Value → Bound

abbrev pub cons_variable : Value → Bound → Bound
cons_variable v panicked = panicked
cons_variable v (failed e) = failed e
cons_variable v (variables vs) = variables (v ∷ vs)

module _ (engine : Engine) where
  open engine use {parse_time}

  -- The first layout by which the text parses.
  first_parse : List String → List Byte → Value
  first_parse [] text = Value.text text
  first_parse (format ∷ formats) text =
      let rest = first_parse formats text in
      elim (parse_time format text) [ some t ↦ Value.time t | none ↦ rest ]

  unfoldable pub cast_text_param : List Byte → List ℕ → ℕ → Value
  unfolding first_parse
  cast_text_param text parameter_oids index = elim (get_elem? parameter_oids index) [
    | none ↦ Value.text text
    | some oid ↦
        if oid == timestamp_oid || oid == timestamptz_oid
        then first_parse timestamp_parse_formats text
        else if oid == date_oid
        then first_parse ("2006-01-02" ∷ []) text
        else Value.text text
  ]

  -- The value of one parameter that is not NULL.
  unfoldable pub bound_value : PreparedStatement → Bool → ℕ → List Byte → Option Value
  bound_value stmt true i param = some (cast_text_param param stmt.parameter_oids i)
  bound_value stmt false i param =
      if length param == 4
      then some (Value.int32 (signed 32 (big_endian 0 param)))
      else if length param == 8
      then some (Value.int64 (signed 64 (big_endian 0 param)))
      else if length param == 16
      then some (Value.uuid param)
      else none

  -- The loop, from parameter `i` on.
  unfoldable pub bound_variables :
      PreparedStatement → List ℕ → ℕ → List (Option (List Byte)) → Bound
  bound_variables stmt codes i [] = variables []
  bound_variables stmt codes i (none ∷ params) = bound_variables stmt codes (i + 1) params
  bound_variables stmt codes i (some param ∷ params) =
      let rest = bound_variables stmt codes (i + 1) params in
      elim (text_format codes i) [
        | none ↦ panicked
        | some text ↦ elim (bound_value stmt text i param) [
          | none ↦ failed (unsupported_parameter param stmt.original_query)
          | some v ↦ cons_variable v rest
        ]
      ]
