-- ===== src/Remapper/Walk/Visibility.antt =====
-- src/query_remapper.go: the names of a WITH clause that the rest of its SELECT sees.
use bemi_db.Prelude.{
  ◌≡◌, refl, ◌≤◌, ap, sym, ◌∙◌, ℕ, zero, suc, String, List, [], ◌∷◌, Bool, true, false, ◌==◌,
  string_eq, if◌then◌else◌,
}
use bemi_db.Names.Sets.{contains}
use bemi_db.Remapper.Syntax.{Ctes, with_clause, no_ctes, cte}
use bemi_db.Remapper.Rewrite.{Rewrite, done, exited, panicked, out_of_fuel, Gives, Gives-bind, Ends}
use bemi_db.Remapper.State.{Environment, RemapperState, pure, lift, ◌>>>◌}
use bemi_db.Remapper.Sizes.{with_size}
use bemi_db.Remapper.Tables.Termination.{reload_ends, upsert_ends, remap_table_var_keeps}
use bemi_db.Remapper.Steps.Termination.{IsReady}
use bemi_db.Remapper.Walk.Termination.{remap_with_ends}
use bemi_db.Remapper.Steps.{Scopes, in_scope, cte_names, when, is_select}
use bemi_db.Remapper.Walk.{remap_with, remap_ctes, remap_select_statement}

abbrev either : Bool → Bool → Bool
either a b = if a then true else b

either_assoc : (a b c : Bool) → either (either a b) c ≡ either b (either a c)
either_assoc true true c = refl
either_assoc true false c = refl
either_assoc false b c = refl

either_twice : (a : Bool) → either a a ≡ a
either_twice true = refl
either_twice false = refl

either-false : (a : Bool) → either a false ≡ a
either-false true = refl
either-false false = refl

Gives-any : {A : Type 0} (o : Rewrite A) → Gives o (λ a. Unit)
Gives-any (done a) = tt
Gives-any exited = tt
Gives-any panicked = tt
Gives-any out_of_fuel = tt

Ends-Gives :
    {A : Type 0} (o : Rewrite A) (P : A → Type 0) → Ends o (λ a. Unit) → Gives o P → Ends o P
Ends-Gives (done a) P e g = g
Ends-Gives exited P e g = tt
Ends-Gives panicked P e g = tt
Ends-Gives out_of_fuel P e g = elim e [ ]

module _ (env : Environment) where
  -- The names in scope at the end are those at the start and those of the clause.
  remap_ctes_lem :
      (n : ℕ) (names : List String) (scopes : Scopes) (indent : ℕ) (ctes : Ctes) (w : RemapperState)
      → Gives (remap_ctes env n names scopes indent ctes w) (λ r.
        (t : String) → contains r.0.1 t ≡ either (contains (cte_names ctes) t) (contains names t))
  unfolding remap_ctes ◌>>>◌ pure lift contains cte_names
  remap_ctes_lem zero names scopes indent ctes w = tt
  remap_ctes_lem (suc n) names scopes indent no_ctes w = λ t. refl
  remap_ctes_lem (suc n) names scopes indent (cte name query rest) w =
      Gives-bind
        (when (is_select query) query
          (remap_select_statement env n (names ∷ scopes) (suc indent) query) w)
        _ (λ r. Unit) _ (Gives-any _)
        (λ r _.
          Gives-bind (remap_ctes env n (name ∷ names) scopes indent rest r.1) _
            (λ r.
              (t : String)
              → contains r.0.1 t ≡ either (contains (cte_names rest) t) (contains (name ∷ names) t))
            _ (remap_ctes_lem n (name ∷ names) scopes indent rest r.1)
            (λ r' h t.
              h t
              ∙ sym (either_assoc (name == t) (contains (cte_names rest) t) (contains names t))))

  in_scope_after :
      (n : ℕ) (scopes : Scopes) (indent : ℕ) (recursive : Bool) (ctes : Ctes) (w : RemapperState)
      → Gives (remap_with env n scopes indent (with_clause recursive ctes) w) (λ r.
        (t : String)
        → in_scope r.0.1 t ≡ (if contains (cte_names ctes) t then true else in_scope scopes t))
  unfolding remap_with ◌>>>◌ pure lift contains in_scope
  in_scope_after zero scopes indent recursive ctes w = tt
  in_scope_after (suc n) scopes indent true ctes w =
      Gives-bind _ _
        (λ r.
          (t : String)
          → contains r.0.1 t ≡ either (contains (cte_names ctes) t) (contains (cte_names ctes) t))
        _ (remap_ctes_lem n (cte_names ctes) scopes indent ctes w)
        (λ r h t.
          ap (λ b. if b then true else in_scope scopes t)
            (h t ∙ either_twice (contains (cte_names ctes) t)))
  in_scope_after (suc n) scopes indent false ctes w =
      Gives-bind _ _
        (λ r. (t : String) → contains r.0.1 t ≡ either (contains (cte_names ctes) t) false) _
        (remap_ctes_lem n [] scopes indent ctes w)
        (λ r h t.
          ap (λ b. if b then true else in_scope scopes t)
            (h t ∙ either-false (contains (cte_names ctes) t)))

  -- With fuel for the size of a WITH clause, RECURSIVE or not, the walk over it does not run out of fuel,
  -- and the names in scope for the rest of its SELECT are then exactly the names of the clause and those
  -- that were in scope around it.
  pub remap_with-in_scope :
      (n : ℕ) (scopes : Scopes) (indent : ℕ) (recursive : Bool) (ctes : Ctes) (w : RemapperState)
      → with_size (with_clause recursive ctes) ≤ n
      → Ends (remap_with env n scopes indent (with_clause recursive ctes) w) (λ r.
        (t : String)
        → in_scope r.0.1 t ≡ (if contains (cte_names ctes) t then true else in_scope scopes t))
  unfolding IsReady
  remap_with-in_scope n scopes indent recursive ctes w h =
      Ends-Gives _ _
        (remap_with_ends (λ w. Unit) env
          (λ t alias w _.
            remap_table_var_keeps env (λ w. Unit) (λ w _. reload_ends env w)
              (λ w _. upsert_ends env w) t alias w tt)
          n scopes indent (with_clause recursive ctes) h w tt)
        (in_scope_after n scopes indent recursive ctes w)
