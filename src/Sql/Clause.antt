-- ===== src/Sql/Clause.antt =====
-- src/sqlquery/condition_clause.go and the QueryBuilder of src/sqlquery/sqlquery.go. A clause and
-- the statement that it belongs to point at each other: `ConditionClause` is the clause with its
-- statement inside, and the statement is given the clause's text when it is built.
use local_drive.Base.{Option, none, some, List, [], ◌∷◌, ◌++◌, Str, text, join, Result, ok, ◌>>=◌}
use local_drive.Sql.Placeholder.{Arg, str}
use local_drive.Sql.Node.{
  ComparisonOperator, equal, in_list, exists, is, LogicalOperator, unset, and, or, BuildError,
  ConditionNode, new_condition_node, build_query,
}

-- The Builder interface. `build` is given the query text of the clause, if there is one.
pub record Builder {ℓ} (B : Type ℓ) : Type ℓ where
  pub build : Option Str → B → Result BuildError (Str × List Arg)
  pub write : List Arg → B → B

-- QueryBuilder.Build
unfoldable pub query_builder_build : Str → Option Str → Str
query_builder_build main_query none = join (text " ") (main_query ∷ [])
query_builder_build main_query (some filter) = join (text " ") (main_query ∷ filter ∷ [])

-- `nodes` runs from `head` to `node`, the last.
pub record ConditionClause {ℓ} (B : Type ℓ) : Type ℓ where
  pub builder : B
  pub nodes : List ConditionNode

unfoldable pub new_condition_clause {ℓ} : {B : Type ℓ} → B → ConditionClause B
new_condition_clause b = record { builder = b; nodes = [] }

logical : LogicalOperator → List Str → List Str
logical unset out = out
logical and out = text "AND" ∷ out
logical or out = text "OR" ∷ out

-- The operator is written only before a next node.
unfoldable pub connective : LogicalOperator → List ConditionNode → List Str → List Str
unfolding logical
connective op [] out = out
connective op (_ ∷ _) out = logical op out

unfoldable pub parts : List ConditionNode → Result BuildError (List Str)
unfolding connective
parts [] = ok []
parts (n ∷ ns) = do
  s ← build_query n
  rest ← parts ns
  ok (s ∷ connective n.next_logical_operator ns rest)

unfoldable pub build_condition_string : List ConditionNode → Result BuildError Str
build_condition_string nodes = do out ← parts nodes; ok (join (text " ") out)

-- And and Or, on the last node; nothing without one.
unfoldable pub set_last : LogicalOperator → List ConditionNode → List ConditionNode
set_last op [] = []
set_last op (n ∷ []) = record n { next_logical_operator = op } ∷ []
set_last op (n ∷ m ∷ ns) = n ∷ set_last op (m ∷ ns)

module _ {ℓ} {B : Type ℓ} where
  unfoldable pub and_then : ConditionClause B → ConditionClause B
  and_then c = record c { nodes = set_last and c.nodes }

  unfoldable pub or_else : ConditionClause B → ConditionClause B
  or_else c = record c { nodes = set_last or c.nodes }

module _ {ℓ} {B : Type ℓ} ⦃b : Builder B⦄ where
  unfoldable pub add_new_node :
      Str → ComparisonOperator → List Arg → ConditionClause B → ConditionClause B
  add_new_node column operator args c = record c {
    nodes = c.nodes ++ (new_condition_node column operator args ∷ []);
    builder = b.write args c.builder;
  }

  unfoldable pub equal_to : Str → Arg → ConditionClause B → ConditionClause B
  equal_to column arg c = add_new_node column equal (arg ∷ []) c

  unfoldable pub is_value : Str → Str → ConditionClause B → ConditionClause B
  is_value column arg c = add_new_node column is (str arg ∷ []) c

  unfoldable pub in_values : Str → List Arg → ConditionClause B → ConditionClause B
  in_values column args c = add_new_node column in_list args c

  unfoldable pub exists_in : Str → List Arg → ConditionClause B → ConditionClause B
  exists_in subquery args c = add_new_node subquery exists args c

  -- ConditionClause.Build
  unfoldable pub build_clause : ConditionClause B → Result BuildError (Str × List Arg)
  build_clause c = do
    c_query ← build_condition_string c.nodes
    b.build (some (text "WHERE " ++ c_query)) c.builder
