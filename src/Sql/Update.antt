-- ===== src/Sql/Update.antt =====
-- src/sqlquery/sql_update.go
use local_drive.Base.{Option, List, [], ◌++◌, Str, text, Result, ok}
use local_drive.Sql.Placeholder.{Arg, build_set_placeholder}
use local_drive.Sql.Node.{BuildError}
use local_drive.Sql.Clause.{Builder, ConditionClause, new_condition_clause, query_builder_build}

pub record SqlUpdate : Type 0 where
  pub table_name : Str
  pub columns : List Str
  pub args : List Arg

unfoldable pub write_update : List Arg → SqlUpdate → SqlUpdate
write_update args u = record u { args = u.args ++ args }

-- Update and Args
unfoldable pub update : Str → List Str → List Arg → SqlUpdate
update table_name columns args =
    write_update args (record { table_name = table_name; columns = columns; args = [] })

unfoldable pub update_query : SqlUpdate → Str
update_query u =
    text "UPDATE " ++ (u.table_name ++ (text " SET " ++ build_set_placeholder u.columns))

unfoldable pub build_update : Option Str → SqlUpdate → Result BuildError (Str × List Arg)
build_update filter u = ok (query_builder_build (update_query u) filter, u.args)

instance abbrev pub update_builder : Builder SqlUpdate
update_builder = record { build = build_update; write = write_update }

unfoldable pub update_where : SqlUpdate → ConditionClause SqlUpdate
update_where u = new_condition_clause u
