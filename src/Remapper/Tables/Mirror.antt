-- ===== src/Remapper/Tables/Mirror.antt =====
-- src/query_remapper_table.go: the tables that reloadIceberSchemaTables creates and drops in DuckDB.
use mathlib.Core.Path.{subst}
use bemi_db.Prelude.{
  ◌≡◌, refl, sym, ap, ◌∙◌, ℕ, suc, All, List, Option, none, some, Bool, true, false, string_eq,
  if◌then◌else◌,
}
use bemi_db.Names.{IcebergSchemaTable}
use bemi_db.Names.Sets.{contains}
use bemi_db.Remapper.Rewrite.{Ends, Ends-bind, Ends-if, Ends-weaken}
use bemi_db.Remapper.State.{Environment, RemapperState}
use bemi_db.Remapper.Tables.{
  table_eq, exec_context, reload_with, reload_iceberg_schema_tables, upsert_pg_stat_user_tables,
}
use bemi_db.Remapper.Tables.Reload.{
  has_table, AreApart, Leaves, Ends-true, added, kept, create_tables_lem, drop_tables_lem,
}

-- The tables of the set that is kept may be listed, and of those that may be DuckDB has a table
-- exactly for those of the set.
unfoldable pub Mirrors :
    (IcebergSchemaTable → IcebergSchemaTable → Bool)
    → (IcebergSchemaTable → Type 0)
    → RemapperState
    → Type 0
Mirrors same Listed w =
    All Listed w.iceberg_tables
    × ((t : IcebergSchemaTable)
        → Listed t
        → has_table same w.executed t ≡ contains w.iceberg_tables t)

mirrored :
    (p n : Bool)
    → (if n
        then (if p then true else if p then false else n)
        else if p
        then false
        else if p
        then true
        else if p
        then false
        else n)
      ≡ n
mirrored true true = refl
mirrored true false = refl
mirrored false true = refl
mirrored false false = refl

-- All that is listed at any time may be listed.
abbrev pub Lists : Environment → (IcebergSchemaTable → Type 0) → Type 0
Lists env Listed =
    (n : ℕ) (tables : List IcebergSchemaTable) → env.listing n ≡ some tables → All Listed tables

module _ (env : Environment) (same : IcebergSchemaTable → IcebergSchemaTable → Bool)
    (Listed : IcebergSchemaTable → Type 0) (apart : AreApart same Listed)
    (lists : Lists env Listed) where
  abbrev Mirroring : RemapperState → Type 0
  Mirroring w = Mirrors same Listed w

  reload_with-Mirrors :
      env.has_duckdb ≡ true
      → (w : RemapperState) → Mirroring w
      → (listing : Option (List IcebergSchemaTable))
      → ((new : List IcebergSchemaTable) → listing ≡ some new → All Listed new)
      → Ends (reload_with env listing w) Mirroring
  unfolding Mirrors
  reload_with-Mirrors d w (ls, m) none l = tt
  reload_with-Mirrors d w (ls, m) (some new) l =
      let w0 : RemapperState = record w { iceberg_tables = new; listings = suc w.listings } in
      let has : IcebergSchemaTable → Bool = λ t. has_table same w.executed t in
      Ends-true env.has_duckdb _ _ Mirroring d (
        Ends-bind _ _ (Leaves env same Listed apart w0 (λ t. added w.iceberg_tables new t (has t)))
          Mirroring (create_tables_lem env same Listed apart w.iceberg_tables new w0 (l new refl))
          (λ w' (k, h).
            Ends-weaken _ _ Mirroring
              (drop_tables_lem env same Listed apart new w.iceberg_tables w' ls)
              (λ w'' (k', h'). (
                subst (λ (x : List IcebergSchemaTable). All Listed x) (sym (k' ∙ k)) (l new refl),
                λ t i.
                    h' t i
                    ∙ ap (kept new w.iceberg_tables t)
                        (h t i ∙ ap (added w.iceberg_tables new t) (m t i))
                    ∙ mirrored (contains w.iceberg_tables t) (contains new t)
                    ∙ ap (λ (x : List IcebergSchemaTable). contains x t) (sym (k' ∙ k)),
              ))))

  -- DuckDB's tables follow the tables of the listing.
  pub reload_iceberg_schema_tables-Mirrors :
      env.has_duckdb ≡ true
      → (w : RemapperState) → Mirroring w
      → Ends (reload_iceberg_schema_tables env w) Mirroring
  unfolding reload_iceberg_schema_tables
  reload_iceberg_schema_tables-Mirrors d w m =
      reload_with-Mirrors d w m (env.listing w.listings) (λ new e. lists w.listings new e)

  pub upsert_pg_stat_user_tables-Mirrors :
      (w : RemapperState) → Mirroring w → Ends (upsert_pg_stat_user_tables env w) Mirroring
  unfolding upsert_pg_stat_user_tables exec_context Mirrors has_table
  upsert_pg_stat_user_tables-Mirrors w m =
      Ends-if Mirroring env.has_duckdb _ _ (Ends-if Mirroring (env.fails _) _ _ tt m) m
