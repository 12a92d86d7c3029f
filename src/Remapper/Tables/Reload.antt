-- ===== src/Remapper/Tables/Reload.antt =====
-- src/query_remapper_table.go: what reloadIceberSchemaTables leaves, of the set that is kept and of
-- the tables in DuckDB.
use bemi_db.Prelude.{
  ◌≡◌, refl, sym, ap, ◌∙◌, inl, inr, List, [], ◌∷◌, map, All, none, some, Bool, true, false,
  Bool-cases, ◌==◌, string_eq, if◌then◌else◌,
}
use bemi_db.Names.{IcebergSchemaTable, to_sql}
use bemi_db.Names.Sets.{contains}
use bemi_db.Remapper.Rewrite.{Rewrite, Ends, Ends-bind, Ends-if, Ends-weaken}
use bemi_db.Remapper.State.{
  DuckdbStatement, create_schema, create_table, drop_table, replace_stat_user_tables, Environment,
  RemapperState,
}
use bemi_db.Remapper.Tables.{
  table_eq, same_table_iff, exec_context, create_with, create_duckdb_table, create_tables,
  drop_tables,
}

-- Whether the statements, the last one first, leave a table, by a test of whether DuckDB takes the names
-- of two tables for the same, which it does not tell apart by case. CREATE TABLE IF NOT EXISTS leaves
-- one that is there, and DROP TABLE IF EXISTS takes it away.
unfoldable pub has_table :
    (IcebergSchemaTable → IcebergSchemaTable → Bool)
    → List DuckdbStatement
    → IcebergSchemaTable
    → Bool
has_table same [] t = false
has_table same (create_table u columns ∷ rest) t = if same u t then true else has_table same rest t
has_table same (drop_table u ∷ rest) t = if same u t then false else has_table same rest t
has_table same (create_schema s ∷ rest) t = has_table same rest t
has_table same (replace_stat_user_tables rows ∷ rest) t = has_table same rest t

pub Ends-true :
    {A : Type 0} (b : Bool) (o p : Rewrite A) (P : A → Type 0)
    → b ≡ true
    → Ends o P
    → Ends (if b then o else p) P
Ends-true true o p P e h = h
Ends-true false o p P e h = cc e

contains_same :
    (tables : List IcebergSchemaTable) (u t : IcebergSchemaTable)
    → (u == t) ≡ true
    → contains tables u ≡ contains tables t
contains_same tables u t h = ap (contains tables) ((same_table_iff u t).0 h)

-- Of a table: whether it is the first of the tables, is there already, is in the previous set and is
-- among the other tables.
added_none : (has p : Bool) → has ≡ (if has then true else if p then false else false)
added_none true p = refl
added_none false true = refl
added_none false false = refl

added_known :
    (s has p o : Bool)
    → (s ≡ true → p ≡ true)
    → (if has then true else if p then false else o)
      ≡ (if has then true else if p then false else if s then true else o)
added_known s true p o h = refl
added_known s false true o h = refl
added_known false false false o h = refl
added_known true false false o h = cc (h refl)

added_new :
    (s has p o : Bool)
    → (s ≡ true → p ≡ false)
    → (if (if s then true else has) then true else if p then false else o)
      ≡ (if has then true else if p then false else if s then true else o)
added_new false has p o h = refl
added_new true true p o h = refl
added_new true false false o h = refl
added_new true false true o h = cc (h refl)

kept_none : (has n : Bool) → has ≡ (if n then has else if false then false else has)
kept_none has true = refl
kept_none has false = refl

kept_known :
    (s has n o : Bool)
    → (s ≡ true → n ≡ true)
    → (if n then has else if o then false else has)
      ≡ (if n then has else if (if s then true else o) then false else has)
kept_known s has true o h = refl
kept_known false has false o h = refl
kept_known true has false o h = cc (h refl)

kept_gone :
    (s has n o : Bool)
    → (s ≡ true → n ≡ false)
    → (if n then (if s then false else has) else if o then false else if s then false else has)
      ≡ (if n then has else if (if s then true else o) then false else has)
kept_gone false has n o h = refl
kept_gone true has true o h = cc (h refl)
kept_gone true has false true h = refl
kept_gone true has false false h = refl

-- The tables that are new are added.
abbrev pub added :
    List IcebergSchemaTable → List IcebergSchemaTable → IcebergSchemaTable → Bool → Bool
added previous tables t has =
    if has then true else if contains previous t then false else contains tables t

abbrev pub kept :
    List IcebergSchemaTable → List IcebergSchemaTable → IcebergSchemaTable → Bool → Bool
kept new tables t has = if contains new t then has else if contains tables t then false else has

-- DuckDB takes the names of two of the tables for the same only if they are the same table.
abbrev pub AreApart :
    (IcebergSchemaTable → IcebergSchemaTable → Bool) → (IcebergSchemaTable → Type 0) → Type 0
AreApart same Listed = (u t : IcebergSchemaTable) → Listed u → Listed t → same u t ≡ (u == t)

if_same : {b c : Bool} (x y : Bool) → b ≡ c → (if b then x else y) ≡ (if c then x else y)
if_same x y e = ap (λ b. if b then x else y) e

module _ (env : Environment) (same : IcebergSchemaTable → IcebergSchemaTable → Bool)
    (Listed : IcebergSchemaTable → Type 0) (apart : AreApart same Listed) where
  -- The set is the same, and of the tables that may be listed DuckDB's are those of a test.
  abbrev pub Leaves : RemapperState → (IcebergSchemaTable → Bool) → RemapperState → Type 0
  Leaves w test w' =
      (w'.iceberg_tables ≡ w.iceberg_tables)
      × ((t : IcebergSchemaTable) → Listed t → has_table same w'.executed t ≡ test t)

  abbrev run : RemapperState → DuckdbStatement → RemapperState
  run w statement = record w { executed = statement ∷ w.executed }

  exec_context_lem :
      (statement : DuckdbStatement) (w : RemapperState)
      → Ends (exec_context env statement w) (λ w'. w' ≡ run w statement)
  unfolding exec_context
  exec_context_lem statement w = Ends-if _ (env.fails statement) _ _ tt refl

  create_duckdb_table_lem :
      (u : IcebergSchemaTable) (w : RemapperState)
      → Listed u
      → Ends
          (create_duckdb_table env u w)
          (Leaves w (λ t. if u == t then true else has_table same w.executed t))
  unfolding create_duckdb_table exec_context has_table
  create_duckdb_table_lem u w l =
      let Created : RemapperState → Type 0 =
        Leaves w (λ t. if u == t then true else has_table same w.executed t) in
      elim (env.table_fields u) as (λ o. Ends (create_with env u o w) Created) [
        | none ↦ tt
        | some fields ↦
            Ends-bind _ _ (λ w'. w' ≡ run w (create_schema u.schema)) Created (exec_context_lem _ w)
              (λ w' e. rw e (
                Ends-if Created (env.fails (create_table u (map to_sql fields))) _ _ tt
                  (refl, λ t k. if_same true _ (apart u t l k))))
      ]

  pub create_tables_lem :
      (previous tables : List IcebergSchemaTable) (w : RemapperState)
      → All Listed tables
      → Ends
          (create_tables env previous tables w)
          (Leaves w (λ t. added previous tables t (has_table same w.executed t)))
  unfolding create_tables contains
  create_tables_lem previous [] w ls =
      (refl, λ t k. added_none (has_table same w.executed t) (contains previous t))
  create_tables_lem previous (u ∷ tables) w (l, ls) =
      let Added : RemapperState → Type 0 =
        Leaves w (λ t. added previous (u ∷ tables) t (has_table same w.executed t)) in
      elim (Bool-cases (contains previous u)) [
        | inl e ↦ rw e (
            Ends-weaken _ _ Added (create_tables_lem previous tables w ls) (λ w' (k, h). (
              k,
              λ t i.
                  h t i
                  ∙ added_known (u == t) (has_table same w.executed t) (contains previous t)
                      (contains tables t) (λ s. sym (contains_same previous u t s) ∙ e),
            )))
        | inr e ↦ rw e (
            Ends-bind _ _ (Leaves w (λ t. if u == t then true else has_table same w.executed t))
              Added (create_duckdb_table_lem u w l)
              (λ w' (k, h).
                Ends-weaken _ _ Added (create_tables_lem previous tables w' ls) (λ w'' (k', h'). (
                  k' ∙ k,
                  λ t i.
                      h' t i
                      ∙ ap (added previous tables t) (h t i)
                      ∙ added_new (u == t) (has_table same w.executed t) (contains previous t)
                          (contains tables t) (λ s. sym (contains_same previous u t s) ∙ e),
                ))))
      ]

  pub drop_tables_lem :
      (new tables : List IcebergSchemaTable) (w : RemapperState)
      → All Listed tables
      → Ends
          (drop_tables env new tables w)
          (Leaves w (λ t. kept new tables t (has_table same w.executed t)))
  unfolding drop_tables contains has_table
  drop_tables_lem new [] w ls =
      (refl, λ t k. kept_none (has_table same w.executed t) (contains new t))
  drop_tables_lem new (u ∷ tables) w (l, ls) =
      let Kept : RemapperState → Type 0 =
        Leaves w (λ t. kept new (u ∷ tables) t (has_table same w.executed t)) in
      elim (Bool-cases (contains new u)) [
        | inl e ↦ rw e (
            Ends-weaken _ _ Kept (drop_tables_lem new tables w ls) (λ w' (k, h). (
              k,
              λ t i.
                  h t i
                  ∙ kept_known (u == t) (has_table same w.executed t) (contains new t)
                      (contains tables t) (λ s. sym (contains_same new u t s) ∙ e),
            )))
        | inr e ↦ rw e (
            Ends-bind _ _ (λ w'. w' ≡ run w (drop_table u)) Kept (exec_context_lem (drop_table u) w)
              (λ w' r. rw r (
                Ends-weaken _ _ Kept (drop_tables_lem new tables (run w (drop_table u)) ls)
                  (λ w'' (k', h'). (
                    k',
                    λ t i.
                        h' t i
                        ∙ ap (kept new tables t) (if_same false _ (apart u t l i))
                        ∙ kept_gone (u == t) (has_table same w.executed t) (contains new t)
                            (contains tables t) (λ s. sym (contains_same new u t s) ∙ e),
                  )))))
      ]
