-- ===== src/Sync/Window.antt =====
-- src/syncer_table.go, CopyFromPgTableSql: which rows of a table a COPY selects, by the number of
-- the transaction that wrote them.
use bemi_db.Prelude.{
  ◌≡◌, ◌↔◌, ℕ, ◌+◌, ◌-◌, ◌%◌, ◌≤◌, ◌<◌, String, ◌<>◌, Option, none, some, Bool, true, false, ◌&&◌,
  ◌||◌, ltb, leb, if◌then◌else◌, arith,
}
use bemi_db.Wire.Text.{nat_to_string}
use bemi_db.Names.{PgSchemaTable, pg_table_string}
use bemi_db.Sync.Metadata.{
  InternalTableMetadata, is_in_progress, pg_wraparound_txid, is_pg_wraparound_txid,
}

-- The WHERE clause: a lower bound, inclusive or not, and an upper bound on xmin.
pub data Window : Type 0 where
  all_rows : Window
  between : Bool → ℕ → ℕ → Window
  wrapped : Bool → ℕ → ℕ → Window

-- The operator: an interrupted refresh reads the rows of its last transaction again.
unfoldable pub operator_text : Bool → String
operator_text inclusive = if inclusive then ">=" else ">"

abbrev pub previous_max_xmin : InternalTableMetadata → ℕ
previous_max_xmin m = elim m.max_xmin [ none ↦ 0 | some x ↦ x ]

-- The branches of CopyFromPgTableSql; none where it panics.
unfoldable pub copy_window : InternalTableMetadata → ℕ → Bool → Option Window
unfolding is_in_progress
copy_window existing current_txid continued_refresh =
    if continued_refresh
    then (elim existing.max_xmin [
      | none ↦ none
      | some x ↦
          if leb x (pg_wraparound_txid current_txid)
          then some (between (is_in_progress existing) x (pg_wraparound_txid current_txid))
          else if is_pg_wraparound_txid current_txid
          then some (wrapped (is_in_progress existing) x (pg_wraparound_txid current_txid))
          else none
    ])
    else some all_rows

abbrev copy_of : String → String → String
copy_of table rest =
    "COPY (SELECT *, xmin::text::bigint AS xmin FROM "
    <> (table <> (rest <> " TO STDOUT WITH CSV HEADER NULL 'BEMIDB_NULL'"))

unfoldable pub window_sql : String → Window → String
unfolding operator_text
window_sql table all_rows = copy_of table " ORDER BY xmin::text::bigint ASC)"
window_sql table (between inclusive low high) = copy_of table (
    " WHERE xmin::text::bigint "
    <> (operator_text inclusive
        <> (" "
            <> (nat_to_string low
                <> (" AND xmin::text::bigint <= "
                    <> (nat_to_string high <> " ORDER BY xmin::text::bigint ASC)"))))))
window_sql table (wrapped inclusive low high) = copy_of table (
    " WHERE xmin::text::bigint "
    <> (operator_text inclusive
        <> (" "
            <> (nat_to_string low
                <> (" OR xmin::text::bigint <= "
                    <> (nat_to_string high
                        <> (" ORDER BY xmin::text::bigint <= "
                            <> (nat_to_string high <> " ASC, xmin::text::bigint ASC)"))))))))

unfoldable pub copy_from_pg_table_sql :
    PgSchemaTable → InternalTableMetadata → ℕ → Bool → Option String
copy_from_pg_table_sql table existing current_txid continued_refresh =
    elim (copy_window existing current_txid continued_refresh) [
      | none ↦ none
      | some window ↦ some (window_sql (pg_table_string table) window)
    ]

-- What Postgres answers to the WHERE clause for a row of the transaction `xmin`.
unfoldable pub selects : Window → ℕ → Bool
selects all_rows xmin = true
selects (between inclusive low high) xmin =
    (if inclusive then leb low xmin else ltb low xmin) && leb xmin high
selects (wrapped inclusive low high) xmin =
    (if inclusive then leb low xmin else ltb low xmin) || leb xmin high

-- How many transactions later than `start` a transaction is, on the circle of 32-bit numbers.
abbrev pub distance : ℕ → ℕ → ℕ
distance start xmin = (xmin + 4294967296 - start) % 4294967296

-- The least distance from the last transaction that is still to be read.
abbrev pub first_distance : InternalTableMetadata → ℕ
first_distance existing = if is_in_progress existing then 0 else 1

selects-between :
    (inclusive : Bool) (low high xmin : ℕ)
    → low ≤ high
    → high < 4294967296
    → xmin < 4294967296
    → (selects (between inclusive low high) xmin ≡ true) ↔ (
        ((if inclusive then 0 else 1) ≤ distance low xmin)
        × (distance low xmin ≤ distance low high))
unfolding selects
selects-between true low high xmin h₁ h₂ h₃ = ground arith
selects-between false low high xmin h₁ h₂ h₃ = ground arith

selects-wrapped :
    (inclusive : Bool) (low high xmin : ℕ)
    → high < low
    → low < 4294967296
    → xmin < 4294967296
    → (selects (wrapped inclusive low high) xmin ≡ true) ↔ (
        ((if inclusive then 0 else 1) ≤ distance low xmin)
        × (distance low xmin ≤ distance low high))
unfolding selects
selects-wrapped true low high xmin h₁ h₂ h₃ = ground arith
selects-wrapped false low high xmin h₁ h₂ h₃ = ground arith

-- A continued refresh selects exactly the rows of the transactions that lie, on the circle of
-- 32-bit transaction numbers, from the last one read to the current one: after the last one, or
-- from it on when the refresh was interrupted.
pub copy_window-selects :
    (existing : InternalTableMetadata) (current_txid mx xmin : ℕ) (window : Window)
    → existing.max_xmin ≡ some mx
    → mx < 4294967296
    → xmin < 4294967296
    → copy_window existing current_txid true ≡ some window
    → (selects window xmin ≡ true) ↔ (
        (first_distance existing ≤ distance mx xmin)
        × (distance mx xmin ≤ distance mx (pg_wraparound_txid current_txid)))
unfolding copy_window
copy_window-selects existing current_txid mx xmin window e h₁ h₂ c = ground (
  arith,
  selects-between (is_in_progress existing) mx (pg_wraparound_txid current_txid) xmin,
  selects-wrapped (is_in_progress existing) mx (pg_wraparound_txid current_txid) xmin,
)
