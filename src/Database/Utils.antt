-- ===== src/Database/Utils.antt =====
-- UpdateRow, DropRows, AppendArgs and MakeArgs of src/db_gateway/db_utils.go, and
-- SelectQueryRow of db_gateway.go.
use local_drive.Base.{
  ℕ, ◌≡◌, sym, ◌∙◌, Option, none, some, List, [], ◌∷◌, ◌++◌, map, append_assoc, append-nil, Str,
  text, count, count_all, count-append, length, Result, ok, err, arith,
}
use local_drive.Sql.Placeholder.{Arg, question, build_placeholder, question-build_placeholder}
use local_drive.Sql.Node.{BuildError}
use local_drive.Sql.Clause.{in_values, build_clause}
use local_drive.Sql.Update.{update, update_where, update_builder}
use local_drive.Sql.Calls.{call, calls, in_values as in_call}
use local_drive.Sql.Built.{update-build_clause}
use local_drive.Database.Rows.{select_row}
use local_drive.Database.{
  Database, GatewayError, driver, parsing, Atomic, exec_query, exec_query-Atomic,
}

-- The statement of UpdateRow; with an error the text and the arguments are empty.
unfoldable pub update_row_query :
    (table where_column : Str)
    → Arg
    → (set_columns : List Str) → (set_args : List Arg) → Result BuildError (Str × List Arg)
update_row_query table where_column where_arg set_columns set_args =
    build_clause
      (in_values where_column (where_arg ∷ []) (update_where (update table set_columns set_args)))

-- The statement of DropRows.
unfoldable pub drop_rows_query : (table column : Str) → List Arg → Str
drop_rows_query table column args =
    text "\n\t\tDELETE FROM "
    ++ (table
        ++ (text "\n\t\tWHERE "
            ++ (column ++ (text " IN " ++ (build_placeholder (length args) 1 ++ text "\n\t\t")))))

module _ (db : Database) where
  open db use {Store, query}

  -- UpdateRow does not look at the error of the builder.
  unfoldable pub update_row :
      Store → (table where_column : Str) → Arg → List Str → List Arg → Result GatewayError ℕ × Store
  unfolding update_row_query
  update_row s table where_column where_arg set_columns set_args =
      elim (update_row_query table where_column where_arg set_columns set_args) [
        | err e ↦ exec_query db s [] []
        | ok (q, args) ↦ exec_query db s q args
      ]

  unfoldable pub drop_rows : Store → (table column : Str) → List Arg → Result GatewayError ℕ × Store
  unfolding drop_rows_query
  drop_rows s table column args = exec_query db s (drop_rows_query table column args) args

  -- SelectQueryRow of db_gateway.go, into a value, by the scan of a row: an error of the driver or of
  -- the scan.
  unfoldable pub select_query_row :
      {A : Type 0} → (List Arg → Option A) → Store → A → Str → List Arg → Result GatewayError A
  select_query_row scan s src q args = elim (query s q args) [
    | err e ↦ err (driver e)
    | ok rows ↦ elim (select_row scan src rows) [ none ↦ err parsing | some a ↦ ok a ]
  ]

  -- DropRows that fails changes nothing, unless its commit took effect.
  drop_rows-Atomic :
      (s : Store) (table column : Str) (args : List Arg)
      → Atomic db s (drop_rows s table column args)
  unfolding drop_rows
  drop_rows-Atomic s table column args =
      exec_query-Atomic db s (drop_rows_query table column args) args

-- For a table and columns without '?' and a value for each column, the statement of UpdateRow builds,
-- with a placeholder for each of its arguments: the columns' values and then the condition's.
update_row_query-ok :
    (table where_column : Str) (where_arg : Arg) (set_columns : List Str) (set_args : List Arg)
    → count question table ≡ 0
    → count_all question set_columns ≡ 0
    → count question where_column ≡ 0
    → length set_args ≡ length set_columns
    → (q : Str) × (update_row_query table where_column where_arg set_columns set_args
        ≡ ok (q, set_args ++ (where_arg ∷ [])))
      × (count question q ≡ length (set_args ++ (where_arg ∷ [])))
unfolding update_row_query calls call in_values
update_row_query-ok table where_column where_arg set_columns set_args h h' k e =
    let (q, built, n) =
      update-build_clause table set_columns set_args (in_call where_column (where_arg ∷ []) ∷ []) h
        h' e (k, tt) in
    (q, built, omega (arith, n))

-- The statement of DropRows has a placeholder for each row's value, for a table and a column without
-- '?'.
question-drop_rows_query :
    (table column : Str) (args : List Arg)
    → count question table ≡ 0
    → count question column ≡ 0
    → count question (drop_rows_query table column args) ≡ length args
unfolding drop_rows_query count text
question-drop_rows_query table column args h k =
    let values = build_placeholder (length args) 1 in
    omega (
      arith,
      h,
      k,
      count-append question table
          (text "\n\t\tWHERE " ++ (column ++ (text " IN " ++ (values ++ text "\n\t\t")))),
      count-append question column (text " IN " ++ (values ++ text "\n\t\t")),
      count-append question values (text "\n\t\t"),
      question-build_placeholder (length args) 1,
    )

-- A value that MakeArgs is given: a slice, a pointer, or any other.
pub data Value : Type 0 where
  one : Arg → Value
  slice : List Arg → Value
  pointer : Value → Value

-- AppendArgs
unfoldable pub append_args : List Arg → List Arg → List Arg
append_args s [] = s
append_args s (v ∷ vs) = append_args (s ++ (v ∷ [])) vs

-- getReflectValue
unfoldable pub get_reflect_value : Value → Value
get_reflect_value (pointer v) = get_reflect_value v
get_reflect_value (one a) = one a
get_reflect_value (slice as') = slice as'

appended : List Value → Value → Value → List Value
appended out a (slice items) = out ++ map one items
appended out a _ = out ++ (a ∷ [])

make_args_onto : List Value → List Value → List Value
unfolding get_reflect_value appended
make_args_onto out [] = out
make_args_onto out (a ∷ more) = make_args_onto (appended out a (get_reflect_value a)) more

-- MakeArgs: the elements of slices, also behind pointers, and the other values as they are.
unfoldable pub make_args : List Value → List Value
unfolding make_args_onto
make_args args = make_args_onto [] args

append_args_lem : (s vs : List Arg) → append_args s vs ≡ s ++ vs
unfolding append_args
append_args_lem s [] = sym (append-nil s)
append_args_lem s (v ∷ vs) = append_args_lem (s ++ (v ∷ [])) vs ∙ append_assoc s (v ∷ []) vs

one-onto :
    (out : List Value) (args : List Arg) → make_args_onto out (map one args) ≡ out ++ map one args
unfolding make_args_onto appended get_reflect_value
one-onto out [] = sym (append-nil out)
one-onto out (a ∷ args) =
    one-onto (out ++ (one a ∷ [])) args ∙ append_assoc out (one a ∷ []) (map one args)

-- Values that are no slices are kept, and a slice of them is taken apart into the same.
make_args-slice : (args : List Arg) → make_args (slice args ∷ []) ≡ make_args (map one args)
unfolding make_args make_args_onto appended get_reflect_value
make_args-slice args = sym (one-onto [] args)
