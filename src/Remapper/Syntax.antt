-- ===== src/Remapper/Syntax.antt =====
-- The syntax tree of pg_query, as far as src/query_remapper*.go and src/parser_*.go read it: other
-- kinds of nodes, and other fields, are left out, since the remapper passes them on. Names of
-- functions, operators, types and collations are lists of texts, as the grammar has them.
use bemi_db.Prelude.{ℕ, String, List, Option, Bool}

pub data Constant : Type 0 where
  sval : String → Constant
  ival : ℕ → Constant
  boolval : Bool → Constant
  null : Constant
  -- a float or a bit string
  other_constant : String → Constant

-- A field of a column reference.
pub data Field : Type 0 where
  name : String → Field
  star : Field

pub data ExprKind : Type 0 where
  op op_any in_list other_kind : ExprKind

pub data BoolOp : Type 0 where
  and_expr or_expr not_expr : BoolOp

pub data SubLinkType : Type 0 where
  array_sublink expr_sublink other_sublink : SubLinkType

pub data JoinType : Type 0 where
  inner other_join : JoinType

-- `nil` is a pointer without a node.
infixr 40 ◌⨾◌
mutual
  pub data Node : Type 0 where
    nil : Node
    a_const : Constant → Node
    column_ref : List Field → Node
    -- the argument, the name of the type, and whether it has array bounds
    type_cast : Node → List String → Bool → Node
    a_expr : ExprKind → List String → Node → Node → Node
    bool_expr : BoolOp → Nodes → Node
    -- the argument, the branches and the default
    case_expr : Node → Nodes → Node → Node
    case_when : Node → Node → Node
    coalesce_expr : Nodes → Node
    -- the left side and the subselect
    sub_link : SubLinkType → Node → Node → Node
    null_test : Node → Node
    node_list : Nodes → Node
    -- the name, the arguments, and whether the last one is variadic
    func_call : List String → Nodes → Bool → Node
    a_indirection : Node → Nodes → Node
    a_indices : Node → Node → Node
    name_of : String → Node
    collate_clause : Node → List String → Node
    a_array_expr : Nodes → Node
    res_target : String → Node → Node
    sort_by : Node → Node
    -- the schema, the table and the alias
    range_var : String → String → Option String → Node
    range_subselect : Node → Option String → Node
    -- the functions, each a list with the call first, and the alias
    range_function : Nodes → Option String → Node
    -- the two sides and the condition
    join_expr : JoinType → Node → Node → Node → Node
    select_stmt : Select → Node
    other : ℕ → Node

  pub data Nodes : Type 0 where
    end : Nodes
    ◌⨾◌ : Node → Nodes → Nodes

  -- The WITH clause, the targets, FROM, WHERE, GROUP BY, HAVING, ORDER BY, VALUES, and the two sides
  -- of a UNION.
  pub data Select : Type 0 where
    select : With → Nodes → Nodes → Node → Nodes → Node → Nodes → Nodes → Node → Node → Select

  pub data With : Type 0 where
    no_with : With
    with_clause : Bool → Ctes → With

  pub data Ctes : Type 0 where
    no_ctes : Ctes
    cte : String → Node → Ctes → Ctes
