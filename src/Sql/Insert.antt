-- ===== src/Sql/Insert.antt =====
-- src/sqlquery/sql_insert.go
use local_drive.Base.{
  ◌/◌, ◌%◌, not, none, List, [], ◌∷◌, ◌++◌, Str, text, join, Result, ok, ◌>>◌, refuse_if, length,
  nat_eq,
}
use local_drive.Sql.Placeholder.{Arg, build_placeholder}
use local_drive.Sql.Node.{BuildError, insert_invalid_arg_count, insert_zero_columns}
use local_drive.Sql.Clause.{query_builder_build}

pub record SqlInsert : Type 0 where
  pub table_name : Str
  pub columns : List Str
  pub args : List Arg

-- InsertInto and Args
unfoldable pub insert_into : Str → List Str → List Arg → SqlInsert
insert_into table_name columns args = record {
  table_name = table_name;
  columns = columns;
  args = args;
}

unfoldable pub write_insert : List Arg → SqlInsert → SqlInsert
write_insert args s = record s { args = s.args ++ args }

-- "" without columns
unfoldable pub build_columns : List Str → Str
build_columns [] = []
build_columns (c ∷ cs) = text "(" ++ (join (text ",") (c ∷ cs) ++ text ")")

-- `if columns != ""`
non_empty : Str → List Str
non_empty [] = []
non_empty (c ∷ s) = (c ∷ s) ∷ []

unfoldable pub insert_query : SqlInsert → Str
unfolding non_empty
insert_query s =
    let repeat_amount = length s.args / length s.columns in
    let params = build_placeholder (length s.columns) repeat_amount in
    let main_query = text "INSERT INTO " ++ s.table_name in
    join (text " ")
      (main_query ∷ (non_empty (build_columns s.columns) ++ ((text "VALUES " ++ params) ∷ [])))

unfoldable pub build_insert : SqlInsert → Result BuildError (Str × List Arg)
build_insert s = do
  refuse_if (nat_eq (length s.columns) 0) insert_zero_columns
  refuse_if (not (nat_eq (length s.args % length s.columns) 0)) insert_invalid_arg_count
  ok (query_builder_build (insert_query s) none, s.args)
