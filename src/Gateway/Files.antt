-- ===== src/Gateway/Files.antt =====
-- FileGateway (src/db_gateway/file_gateway.go): the methods that select and change rows through the
-- query builder. A method is given the time that it reads from the clock.
pub mod Effects
pub mod Queries
pub mod Listing
pub mod Changes
use local_drive.Base.{
  ℕ, ◌+◌, ◌*◌, Bool, true, false, Option, none, some, List, [], ◌∷◌, ◌++◌, map, Str, text, Result,
  ok, err, length, nat_eq, if◌then◌else◌,
}
use local_drive.Sql.Placeholder.{Arg, str, time}
use local_drive.Sql.Node.{BuildError}
use local_drive.Sql.Clause.{Builder, ConditionClause, equal_to, in_values, and_then, build_clause}
use local_drive.Sql.Select.{SqlSelect, select, select_where, select_builder}
use local_drive.Sql.Insert.{insert_into, build_insert}
use local_drive.Sql.Update.{SqlUpdate, update, update_where, update_builder}
use local_drive.Files.{File, UploadStatus, flatten_file}
use local_drive.Files.Columns.{
  table_name, column_file_owner_id, column_file_name, column_file_type, column_file_id,
  column_file_extension, column_parent_id, column_file_path, column_file_size, column_modified_on,
  column_deleted_on, column_upload_status, column_unique_hash,
}
use local_drive.Files.Flatten.{scan_all}
use local_drive.Database.{
  Database, SqlError, GatewayError, sql, server, no_file_args, driver, parsing, exec_query,
}

-- The columns that AddFile inserts, in the order of FlattenFile.
abbrev pub add_file_columns : List Str
add_file_columns =
    column_file_owner_id ∷ column_file_name ∷ column_file_type ∷ column_file_id
    ∷ column_file_extension ∷ column_parent_id ∷ column_file_path ∷ column_file_size
    ∷ column_modified_on ∷ column_deleted_on ∷ column_upload_status ∷ column_unique_hash ∷ []

-- utils.ConvertToAny of the IDs
unfoldable pub convert_to_any : List Str → List Arg
convert_to_any ids = map str ids

-- `WHERE AccountID = ? AND FileID = ?`
unfoldable pub of_file :
    {B : Type 0} ⦃b : Builder B⦄ → Str → Str → ConditionClause B → ConditionClause B
of_file owner id c =
    equal_to column_file_id (str id) (and_then (equal_to column_file_owner_id (str owner) c))

-- The texts and arguments of the built queries.
unfoldable pub get_file_query : Str → Str → Result BuildError (Str × List Arg)
get_file_query owner id = build_clause (of_file owner id (select_where (select table_name [])))

unfoldable pub get_files_query : Str → List Str → Result BuildError (Str × List Arg)
get_files_query owner ids = build_clause (
    in_values column_file_id (convert_to_any ids)
      (and_then (equal_to column_file_owner_id (str owner) (select_where (select table_name [])))))

unfoldable pub update_file_query : ℕ → Str → Str → Str → Arg → Result BuildError (Str × List Arg)
update_file_query now owner id column arg = build_clause (
    of_file owner id
      (update_where (update table_name (column_modified_on ∷ column ∷ []) (time now ∷ arg ∷ []))))

unfoldable pub add_file_query : List File → Result BuildError (Str × List Arg)
add_file_query files = build_insert (insert_into table_name add_file_columns (flatten_file files))

unfoldable pub update_modified_query : ℕ → Str → List Str → Result BuildError (Str × List Arg)
update_modified_query now owner ids = build_clause (
    equal_to column_file_owner_id (str owner) (
      and_then (
        in_values column_file_id (convert_to_any ids)
          (update_where (update table_name (column_modified_on ∷ []) (time now ∷ []))))))

unfoldable pub delete_files_query : ℕ → Str → List Str → Result BuildError (Str × List Arg)
delete_files_query delete_time owner ids = build_clause (
    in_values column_file_id (convert_to_any ids) (
      and_then (
        equal_to column_file_owner_id (str owner)
          (update_where (update table_name (column_deleted_on ∷ []) (time delete_time ∷ []))))))

unfoldable pub update_upload_status_query :
    Str → Str → UploadStatus → Result BuildError (Str × List Arg)
update_upload_status_query owner id status = build_clause (
    of_file owner id
      (update_where (update table_name (column_upload_status ∷ []) (str status ∷ []))))

-- Days to nanoseconds, where the clock of the server is not put forward or back, and the days that a
-- deleted file is kept.
abbrev pub day : ℕ
day = 24 * 3600 * 1000000000

abbrev pub days_until_delete : ℕ
days_until_delete = 15

first_file : List File → Option File
first_file [] = none
first_file (f ∷ _) = some f

-- getFiles of the gateway, with the error that its caller returns where a row cannot be scanned.
scanned : GatewayError → Option (List File) → Result GatewayError (List File)
scanned e none = err e
scanned e (some fs) = ok fs

rows_or_sql : GatewayError → Result SqlError (List (List Arg)) → Result GatewayError (List File)
unfolding scanned
rows_or_sql scan_error (err e) = err sql
rows_or_sql scan_error (ok rows) = scanned scan_error (scan_all rows)

firsts : Result GatewayError (List File) → Result GatewayError (Option File)
unfolding first_file
firsts (err e) = err e
firsts (ok fs) = ok (first_file fs)

module _ (db : Database) where
  open db use {Store, query}

  -- A query that does not build is SqlErr.
  selected :
      GatewayError → Store → Result BuildError (Str × List Arg) → Result GatewayError (List File)
  unfolding rows_or_sql
  selected scan_error s (err e) = err sql
  selected scan_error s (ok (q, args)) = rows_or_sql scan_error (query s q args)

  -- nil where no row has the ID; a row that cannot be scanned is SqlErr too
  unfoldable pub get_file : Store → Str → Str → Result GatewayError (Option File)
  unfolding firsts selected
  get_file s owner id = firsts (selected sql s (get_file_query owner id))

  -- A row that cannot be scanned has an error of its own.
  unfoldable pub get_files : Store → Str → List Str → Result GatewayError (List File)
  unfolding selected
  get_files s owner ids = selected parsing s (get_files_query owner ids)

  -- Any error is SqlErr.
  unfoldable pub counted : Store → Result GatewayError ℕ × Store → Result GatewayError ℕ × Store
  counted s (ok n, s') = (ok n, s')
  counted s (err e, s') = (err sql, s')

  unfoldable pub changed :
      Store → Result BuildError (Str × List Arg) → Result GatewayError ℕ × Store
  unfolding counted
  changed s (err e) = (err sql, s)
  changed s (ok (q, args)) = counted s (exec_query db s q args)

  unfoldable pub done : Result GatewayError ℕ × Store → Result GatewayError (Unit {0}) × Store
  done (ok n, s) = (ok tt, s)
  done (err e, s) = (err e, s)

  unfoldable pub update_file :
      ℕ → Store → Str → Str → Str → Arg → Result GatewayError (Unit {0}) × Store
  unfolding done changed
  update_file now s owner id column arg =
      done (changed s (update_file_query now owner id column arg))

  unfoldable pub update_upload_status :
      Store → Str → Str → UploadStatus → Result GatewayError (Unit {0}) × Store
  unfolding done changed
  update_upload_status s owner id status =
      done (changed s (update_upload_status_query owner id status))

  unfoldable pub update_modified_files :
      ℕ → Store → Str → List Str → Result GatewayError (Unit {0}) × Store
  unfolding done changed
  update_modified_files now s owner ids = done (changed s (update_modified_query now owner ids))

  -- The error of the server is handed on.
  unfoldable pub added :
      Store → Result BuildError (Str × List Arg) → Result GatewayError (Unit {0}) × Store
  unfolding done
  added s (err e) = (err sql, s)
  added s (ok (q, args)) = done (exec_query db s q args)

  unfoldable pub add_file : Store → List File → Result GatewayError (Unit {0}) × Store
  unfolding added
  add_file s [] = (err no_file_args, s)
  add_file s (f ∷ files) = added s (add_file_query (f ∷ files))

  -- The number of rows that were affected.
  unfoldable pub delete_files : ℕ → Store → Str → List Str → Result GatewayError ℕ × Store
  unfolding changed
  delete_files now s owner [] = (err server, s)
  delete_files now s owner (id ∷ ids) =
      changed s (delete_files_query (now + days_until_delete * day) owner (id ∷ ids))
