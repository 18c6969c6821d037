-- ===== src/Sql/Select.antt =====
-- src/sqlquery/sql_select.go
use local_drive.Base.{Option, List, [], ◌∷◌, ◌++◌, Str, text, join, Result, ok}
use local_drive.Sql.Placeholder.{Arg}
use local_drive.Sql.Node.{BuildError}
use local_drive.Sql.Clause.{Builder, ConditionClause, new_condition_clause, query_builder_build}

pub record SqlSelect : Type 0 where
  pub table_name : Str
  pub columns : List Str
  pub args : List Arg

or_all : List Str → List Str
or_all [] = text "*" ∷ []
or_all columns = columns

unfoldable pub select : Str → List Str → SqlSelect
unfolding or_all
select table_name columns = record { table_name = table_name; columns = or_all columns; args = [] }

unfoldable pub select_query : SqlSelect → Str
select_query s = text "SELECT " ++ (join (text ",") s.columns ++ (text " FROM " ++ s.table_name))

-- Build, with the text of the condition clause where `Where` was called.
unfoldable pub build_select : Option Str → SqlSelect → Result BuildError (Str × List Arg)
build_select filter s = ok (query_builder_build (select_query s) filter, s.args)

unfoldable pub write_select : List Arg → SqlSelect → SqlSelect
write_select args s = record s { args = s.args ++ args }

instance abbrev pub select_builder : Builder SqlSelect
select_builder = record { build = build_select; write = write_select }

unfoldable pub select_where : SqlSelect → ConditionClause SqlSelect
select_where s = new_condition_clause s
