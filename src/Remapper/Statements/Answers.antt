-- ===== src/Remapper/Statements/Answers.antt =====
-- src/query_remapper.go: ParseAndRemapQuery ends, and gives as many queries as there are statements.
use bemi_db.Prelude.{
  ◌≡◌, refl, ap, ◌∙◌, inl, inr, ◌⊎◌, ℕ, suc, ◌≤◌, String, List, [], ◌∷◌, Option, Bool, true, length,
  All,
}
use bemi_db.Names.{IcebergSchemaTable, QuerySchemaTable}
use bemi_db.Remapper.Syntax.{select_stmt}
use bemi_db.Remapper.Rewrite.{Ends, Ends-bind, Ends-weaken}
use bemi_db.Remapper.Sizes.{node_size}
use bemi_db.Remapper.State.{Environment, RemapperState, Walk, pure, ◌>>>◌}
use bemi_db.Remapper.Tables.{remap_table_var}
use bemi_db.Remapper.Tables.Mirror.{
  Mirrors, Lists, reload_iceberg_schema_tables-Mirrors, upsert_pg_stat_user_tables-Mirrors,
}
use bemi_db.Remapper.Tables.Reload.{AreApart}
use bemi_db.Remapper.Tables.Termination.{reload_ends, upsert_ends, remap_table_var_keeps}
use bemi_db.Remapper.Steps.Termination.{IsReady}
use bemi_db.Remapper.Walk.Termination.{remap_select_statement_ends}
use bemi_db.Remapper.Statements.{
  QueryStatement, empty_statement, select_statement, variable_set, discard, variable_show,
  transaction, unsupported, Parser, Fallible, remap_statement, remap_statements, deparse_all,
  parse_and_remap_query, explained, also, deparsed, given,
}

unfoldable pub statement_size : QueryStatement → ℕ
unfolding node_size
statement_size (select_statement s) = node_size (select_stmt s)
statement_size _ = 0

unfoldable pub IsSupported : QueryStatement → Type 0
IsSupported empty_statement = ⊥
IsSupported (unsupported kind) = ⊥
IsSupported _ = Unit

-- There are as many statements as before, and all of the latter are supported.
unfoldable pub Answers : List QueryStatement → Fallible (List QueryStatement) → Type 0
unfolding IsSupported
Answers old (inl e) = Unit
Answers old (inr new) = (length new ≡ length old) × All IsSupported old

-- There is a query and an original query for each statement, and all statements are supported.
unfoldable pub Answered : List QueryStatement → Fallible (List String × List String) → Type 0
unfolding IsSupported
Answered old (inl e) = Unit
Answered old (inr (queries, originals)) =
    (length queries ≡ length old) × ((length originals ≡ length old) × All IsSupported old)

module _ (I : RemapperState → Type 0) (env : Environment)
    (keeps : (t : QuerySchemaTable) (alias : Option String)
      → IsReady I (remap_table_var env t alias))
    (parser : Parser) (fuel : ℕ) where
  OneAnswer : QueryStatement → Fallible QueryStatement → Type 0
  OneAnswer old (inl e) = Unit
  OneAnswer old (inr new) = IsSupported old

  remap_statement_answers :
      (s : QueryStatement) (w : RemapperState)
      → statement_size s ≤ fuel
      → I w
      → Ends (remap_statement env parser fuel s w) (λ r. OneAnswer s r.0 × I r.1)
  unfolding ◌>>>◌ pure remap_statement statement_size IsSupported OneAnswer IsReady
  remap_statement_answers empty_statement w h i = (tt, i)
  remap_statement_answers (select_statement s) w h i =
      Ends-bind _ _ (λ r. I r.1) (λ r. OneAnswer (select_statement s) r.0 × I r.1)
        (remap_select_statement_ends I env keeps fuel [] 1 (select_stmt s) h w i) (λ r i'. (tt, i'))
  remap_statement_answers (variable_set x v) w h i = (tt, i)
  remap_statement_answers discard w h i = (tt, i)
  remap_statement_answers (variable_show x) w h i = (tt, i)
  remap_statement_answers transaction w h i = (tt, i)
  remap_statement_answers (unsupported kind) w h i = (tt, i)

  Answers-cons :
      (s s' : QueryStatement) (old : List QueryStatement) (rest : Fallible (List QueryStatement))
      → IsSupported s
      → Answers old rest
      → Answers (s ∷ old) (also (λ ss. s' ∷ ss) rest)
  unfolding Answers
  Answers-cons s s' old (inl e) h a = tt
  Answers-cons s s' old (inr new) h (l, a) = (ap suc l, (h, a))

  abbrev after :
      List QueryStatement → Fallible QueryStatement → Walk (Fallible (List QueryStatement))
  after old r =
      given r
        (λ s. remap_statements env parser fuel old >>> λ rest. pure (also (λ ss. s ∷ ss) rest))

  after-Answers :
      (s : QueryStatement) (old : List QueryStatement) (r : Fallible QueryStatement)
      (w : RemapperState)
      → ((w : RemapperState)
          → I w
          → Ends (remap_statements env parser fuel old w) (λ r. Answers old r.0 × I r.1))
      → OneAnswer s r × I w
      → Ends (after old r w) (λ r. Answers (s ∷ old) r.0 × I r.1)
  unfolding ◌>>>◌ pure Answers OneAnswer
  after-Answers s old (inl e) w ih (a, i) = (tt, i)
  after-Answers s old (inr s') w ih (a, i) =
      Ends-bind _ _ (λ r. Answers old r.0 × I r.1) (λ r. Answers (s ∷ old) r.0 × I r.1) (ih w i)
        (λ r (as_, i'). (Answers-cons s s' old r.0 a as_, i'))

  remap_statements-Answers :
      (old : List QueryStatement) (w : RemapperState)
      → All (λ s. statement_size s ≤ fuel) old
      → I w
      → Ends (remap_statements env parser fuel old w) (λ r. Answers old r.0 × I r.1)
  unfolding ◌>>>◌ pure remap_statements Answers
  remap_statements-Answers [] w h i = ((refl, tt), i)
  remap_statements-Answers (s ∷ old) w (h, hs) i =
      Ends-bind _ _ (λ r. OneAnswer s r.0 × I r.1) (λ r. Answers (s ∷ old) r.0 × I r.1)
        (remap_statement_answers s w h i)
        (λ (r, w') a. after-Answers s old r w' (λ w i. remap_statements-Answers old w hs i) a)

  LongAs : List QueryStatement → Fallible (List String) → Type 0
  LongAs old (inl e) = Unit
  LongAs old (inr texts) = length texts ≡ length old

  deparsed-LongAs :
      (s : QueryStatement) (old : List QueryStatement) (text : String ⊎ String)
      (rest : Fallible (List String))
      → LongAs old rest
      → LongAs (s ∷ old) (deparsed text rest)
  unfolding LongAs
  deparsed-LongAs s old (inl e) rest h = tt
  deparsed-LongAs s old (inr t) (inl e) h = tt
  deparsed-LongAs s old (inr t) (inr texts) h = ap suc h

  deparse_all-LongAs : (old : List QueryStatement) → LongAs old (deparse_all env parser fuel old)
  unfolding deparse_all LongAs
  deparse_all-LongAs [] = refl
  deparse_all-LongAs (s ∷ old) = deparsed-LongAs s old (parser.deparse s) _ (deparse_all-LongAs old)

  finished_answer :
      (tree new : List QueryStatement) (query : String) (originals : List String)
      (texts : Fallible (List String))
      → LongAs tree (inr originals)
      → Answers tree (inr new)
      → LongAs new texts
      → Answered tree
          (also (λ queries. (queries, originals)) (explained "deparse remapped" query texts))
  unfolding LongAs Answers Answered
  finished_answer tree new query originals (inl e) h (n, s) l = tt
  finished_answer tree new query originals (inr queries) h (n, s) l = (l ∙ n, (h, s))

  after_remapped :
      (tree : List QueryStatement) (query : String) (originals : List String)
      (remapped : Fallible (List QueryStatement)) (w : RemapperState)
      → LongAs tree (inr originals)
      → Answers tree remapped × I w
      → Ends
          (given
            (explained "remap" query remapped)
            (λ statements. pure (
              also
                (λ queries. (queries, originals))
                (explained "deparse remapped" query (deparse_all env parser fuel statements))))
            w)
          (λ r. Answered tree r.0 × I r.1)
  unfolding pure Answered
  after_remapped tree query originals (inl e) w h (a, i) = (tt, i)
  after_remapped tree query originals (inr new) w h (a, i) =
      (finished_answer tree new query originals _ h a (deparse_all-LongAs new), i)

  after_parsed :
      (tree : List QueryStatement) (query : String) (originals : Fallible (List String))
      (w : RemapperState)
      → All (λ s. statement_size s ≤ fuel) tree
      → I w
      → LongAs tree originals
      → Ends
          (given
            (explained "deparse" query originals)
            (λ originals. remap_statements env parser fuel tree >>> λ remapped.
              given (explained "remap" query remapped) (λ statements. pure (
                also
                  (λ queries. (queries, originals))
                  (explained "deparse remapped" query (deparse_all env parser fuel statements)))))
            w)
          (λ r. Answered tree r.0 × I r.1)
  unfolding pure ◌>>>◌ Answered
  after_parsed tree query (inl e) w hs i h = (tt, i)
  after_parsed tree query (inr originals) w hs i h =
      Ends-bind _ _ (λ r. Answers tree r.0 × I r.1) (λ r. Answered tree r.0 × I r.1)
        (remap_statements-Answers tree w hs i)
        (λ (remapped, w') a. after_remapped tree query originals remapped w' h a)

  parse_and_remap_query_answers :
      (query : String) (tree : List QueryStatement) (w : RemapperState)
      → parser.parse query ≡ inr tree
      → All (λ s. statement_size s ≤ fuel) tree
      → I w
      → Ends (parse_and_remap_query env parser fuel query w) (λ r. Answered tree r.0 × I r.1)
  unfolding parse_and_remap_query
  parse_and_remap_query_answers query tree w e hs i =
      rw e (after_parsed tree query _ w hs i (deparse_all-LongAs tree))

-- Of a query that pg_query parses, with fuel for the sizes of its statements: the rewrite does not run
-- out of fuel; and if it gives queries, there are as many of them, and as many original queries, as
-- there are statements in the query, none of which is empty or of an unsupported kind.
pub parse_and_remap_query-Answered :
    (env : Environment) (parser : Parser) (fuel : ℕ) (query : String) (tree : List QueryStatement)
    (w : RemapperState)
    → parser.parse query ≡ inr tree
    → All (λ s. statement_size s ≤ fuel) tree
    → Ends (parse_and_remap_query env parser fuel query w) (λ r. Answered tree r.0)
unfolding IsReady
parse_and_remap_query-Answered env parser fuel query tree w e hs =
    Ends-weaken (parse_and_remap_query env parser fuel query w) (λ r. Answered tree r.0 × Unit)
      (λ r. Answered tree r.0)
      (parse_and_remap_query_answers (λ w. Unit) env
        (λ t alias w _.
          remap_table_var_keeps env (λ w. Unit) (λ w _. reload_ends env w)
            (λ w _. upsert_ends env w) t alias w tt)
        parser fuel query tree w e hs tt)
      (λ r a. a.0)

-- Suppose that a remapper has a DuckDB, and that among the tables that may be listed DuckDB takes no two
-- for the same by their names, which it does not tell apart by case. If then DuckDB's tables, as the
-- remapper's statements leave them, are those of the set of Iceberg tables it keeps, this is so again
-- after the rewrite of a query that pg_query parses, with fuel for the sizes of its statements.
pub parse_and_remap_query-Mirrors :
    (env : Environment) (same : IcebergSchemaTable → IcebergSchemaTable → Bool)
    (Listed : IcebergSchemaTable → Type 0) (parser : Parser) (fuel : ℕ) (query : String)
    (tree : List QueryStatement) (w : RemapperState)
    → AreApart same Listed
    → Lists env Listed
    → env.has_duckdb ≡ true
    → parser.parse query ≡ inr tree
    → All (λ s. statement_size s ≤ fuel) tree
    → Mirrors same Listed w
    → Ends (parse_and_remap_query env parser fuel query w) (λ r. Mirrors same Listed r.1)
unfolding IsReady
parse_and_remap_query-Mirrors env same Listed parser fuel query tree w apart lists d e hs m =
    let Mirroring : RemapperState → Type 0 = λ w. Mirrors same Listed w in
    Ends-weaken (parse_and_remap_query env parser fuel query w)
      (λ r. Answered tree r.0 × Mirroring r.1) (λ r. Mirroring r.1)
      (parse_and_remap_query_answers Mirroring env
        (remap_table_var_keeps env Mirroring
          (reload_iceberg_schema_tables-Mirrors env same Listed apart lists d)
          (upsert_pg_stat_user_tables-Mirrors env same Listed apart lists))
        parser fuel query tree w e hs m)
      (λ r a. a.1)
