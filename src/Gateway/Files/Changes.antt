-- ===== src/Gateway/Files/Changes.antt =====
-- RenameFile and RestoreDeletedFiles of FileGateway (src/db_gateway/file_gateway.go), which write SQL
-- text of their own.
use local_drive.Base.{
  ℕ, Option, none, some, List, [], ◌∷◌, Str, text, concat, Result, ok, err, length, nat_eq,
  if◌then◌else◌,
}
use local_drive.Sql.Placeholder.{str, time, null, build_placeholder}
use local_drive.Files.{File}
use local_drive.Files.Columns.{
  table_name, column_file_owner_id, column_file_name, column_file_id, column_file_extension,
  column_parent_id, column_modified_on, column_deleted_on, column_unique_hash,
}
use local_drive.Database.{
  Database, GatewayError, sql, no_affected_rows, file_retrieval, is_duplicate_sql_error, exec_query,
}
use local_drive.Gateway.Files.{get_file, get_files, convert_to_any}

-- The new name stands in the text of the query, between quotes.
unfoldable pub rename_query : Str → Str
rename_query new_name = concat (
    text "\n\t\tUPDATE "
    ∷ table_name
    ∷ text "\n\t\tSET "
    ∷ column_file_name
    ∷ text " = ?,\n\t\t\t"
    ∷ column_unique_hash
    ∷ text " = SHA2(CONCAT("
    ∷ column_file_owner_id
    ∷ text ", '"
    ∷ new_name
    ∷ text "', "
    ∷ column_file_extension
    ∷ text ", "
    ∷ column_parent_id
    ∷ text "), 256),\n\t\t\t"
    ∷ column_modified_on
    ∷ text " = ?\n\t\tWHERE "
    ∷ column_file_owner_id
    ∷ text " = ? AND "
    ∷ column_file_id
    ∷ text " = ?"
    ∷ [])

unfoldable pub restore_query : ℕ → Str
restore_query files = concat (
    text "\n\t\tUPDATE "
    ∷ table_name
    ∷ text " f\n\t\tLEFT JOIN "
    ∷ table_name
    ∷ text " p\n\t\t\tON p."
    ∷ column_file_id
    ∷ text " = f."
    ∷ column_parent_id
    ∷ text "\n\t\t\tAND p."
    ∷ column_deleted_on
    ∷ text " IS NULL\n\t\tSET\n\t\t\tf."
    ∷ column_deleted_on
    ∷ text " = ?,\n\t\t\tf."
    ∷ column_parent_id
    ∷ text " = COALESCE(p."
    ∷ column_file_id
    ∷ text ", '')\n\t\tWHERE f."
    ∷ column_file_owner_id
    ∷ text " = ? AND f."
    ∷ column_file_id
    ∷ text " IN "
    ∷ build_placeholder files 1
    ∷ [])

-- A file that cannot be found again is an error.
found : Result GatewayError (Option File) → Result GatewayError File
found (err e) = err e
found (ok none) = err file_retrieval
found (ok (some f)) = ok f

module _ (db : Database) where
  open db use {Store}

  -- A duplicate is handed on.
  unfoldable pub renamed :
      Str → Str → Result GatewayError ℕ × Store → Result GatewayError File × Store
  unfolding found
  renamed account file_id (err e, s) = (err (if is_duplicate_sql_error e then e else sql), s)
  renamed account file_id (ok n, s) = (found (get_file db s account file_id), s)

  unfoldable pub rename_file : ℕ → Store → Str → Str → Str → Result GatewayError File × Store
  unfolding renamed
  rename_file now s account file_id new_name = renamed account file_id (
      exec_query db s (rename_query new_name)
        (str new_name ∷ time now ∷ str account ∷ str file_id ∷ []))

  unfoldable pub restored :
      Str → List Str → Result GatewayError ℕ × Store → Result GatewayError (List File) × Store
  restored owner ids (err e, s) = (err sql, s)
  restored owner ids (ok n, s) =
      if nat_eq n (length ids) then (get_files db s owner ids, s) else (err no_affected_rows, s)

  unfoldable pub restore_deleted_files :
      Store → Str → List Str → Result GatewayError (List File) × Store
  unfolding restored
  restore_deleted_files s owner ids =
      restored owner ids
        (exec_query db s (restore_query (length ids)) (null ∷ str owner ∷ convert_to_any ids))
