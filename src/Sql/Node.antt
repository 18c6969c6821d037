-- ===== src/Sql/Node.antt =====
-- src/sqlquery/condition_node.go and the constants of src/sqlquery/sqlquery.go.
use local_drive.Base.{List, ◌∷◌, ◌++◌, Str, text, length, Result, ok, err}
use local_drive.Sql.Placeholder.{Arg, str, build_placeholder}

pub data ComparisonOperator : Type 0 where
  equal gt gte lt lte ne between like in_list exists is : ComparisonOperator

unfoldable pub symbol : ComparisonOperator → Str
symbol equal = text "="
symbol gt = text ">"
symbol gte = text ">="
symbol lt = text "<"
symbol lte = text "<="
symbol ne = text "<>"
symbol between = text "BETWEEN"
symbol like = text "LIKE"
symbol in_list = text "IN"
symbol exists = text "EXISTS"
symbol is = text "IS"

-- The zero value of the Go string is `unset`.
pub data LogicalOperator : Type 0 where
  unset and or : LogicalOperator

-- The two errors of a statement's Build, and the panic of an index out of range.
pub data BuildError : Type 0 where
  insert_invalid_arg_count insert_zero_columns index_out_of_range : BuildError

-- The `next` pointers are the order of the list that holds the nodes.
pub record ConditionNode : Type 0 where
  pub column : Str
  pub args : List Arg
  pub operator : ComparisonOperator
  pub next_logical_operator : LogicalOperator

unfoldable pub new_condition_node : Str → ComparisonOperator → List Arg → ConditionNode
new_condition_node column comp_operator args = record {
  column = column;
  args = args;
  operator = comp_operator;
  next_logical_operator = unset;
}

pub set_column : Str → ConditionNode → ConditionNode
set_column column c = record c { column = column }

pub append_args : List Arg → ConditionNode → ConditionNode
append_args args c = record c { args = c.args ++ args }

-- `fmt.Sprintf("%s IS %v", column, args[0])`. `Is` gives one string; an `IS` node with another
-- value, whose `%v` is not modelled, is counted with the empty list, which panics.
is_text : Str → List Arg → Result BuildError Str
is_text column (str s ∷ _) = ok (column ++ (text " IS " ++ s))
is_text column _ = err index_out_of_range

condition_text : ComparisonOperator → Str → List Arg → Result BuildError Str
unfolding is_text
condition_text in_list column args =
    ok (column ++ (text " IN " ++ build_placeholder (length args) 1))
condition_text equal column args = ok (column ++ (text " = " ++ build_placeholder (length args) 1))
condition_text exists column args = ok (text "EXISTS (" ++ (column ++ text ")"))
condition_text is column args = is_text column args
condition_text operator column args =
    ok
      (column ++ (text " " ++ (symbol operator ++ (text " " ++ build_placeholder (length args) 1))))

unfoldable pub build_query : ConditionNode → Result BuildError Str
unfolding condition_text symbol
build_query c = condition_text c.operator c.column c.args
