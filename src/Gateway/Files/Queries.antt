-- ===== src/Gateway/Files/Queries.antt =====
-- The SQL texts that the methods of FileGateway (src/db_gateway/file_gateway.go) select with.
use local_drive.Base.{List, [], ◌∷◌, Str, text, join, concat}
use local_drive.Files.Columns.{
  table_name, column_file_owner_id, column_file_name, column_file_type, column_file_id,
  column_file_extension, column_parent_id, column_file_size, column_modified_on, column_deleted_on,
  column_upload_status, column_unique_hash,
}

-- The columns of a FileResponse.
abbrev pub response_columns : List Str
response_columns =
    column_file_name ∷ column_file_type ∷ column_file_id ∷ column_file_extension ∷ column_parent_id
    ∷ column_file_size ∷ column_modified_on ∷ column_deleted_on ∷ column_upload_status
    ∷ column_unique_hash ∷ []

abbrev pub get_all_files_query : Str
get_all_files_query = concat (
    text "SELECT "
    ∷ join (text ", ") response_columns
    ∷ text "\n\t\tFROM "
    ∷ table_name
    ∷ text "\n\t\tWHERE "
    ∷ column_file_owner_id
    ∷ text " = ?\n\t\tORDER BY "
    ∷ column_file_type
    ∷ text ", "
    ∷ column_file_name
    ∷ [])

abbrev pub get_deleted_files_query : Str
get_deleted_files_query = concat (
    text "SELECT "
    ∷ join (text ", ") response_columns
    ∷ text "\n\t\tFROM "
    ∷ table_name
    ∷ text "\n\t\tWHERE "
    ∷ column_file_owner_id
    ∷ text " = ? AND "
    ∷ column_deleted_on
    ∷ text " IS NOT NULL\n\t\tORDER BY "
    ∷ column_file_type
    ∷ text ", "
    ∷ column_file_name
    ∷ [])

abbrev pub count_query : Str
count_query = concat (
    text "\n\t\tSELECT COUNT(*) \n\t\tFROM "
    ∷ table_name
    ∷ text " f \n\t\tJOIN UserAccount u\n\t\t\tON u.AccountID = f."
    ∷ column_file_owner_id
    ∷ text " \n\t\tWHERE u.AccountID = ? AND f."
    ∷ column_file_id
    ∷ text " = ?\n\t\t"
    ∷ [])

abbrev pub children_query : Str
children_query = concat (
    text "\n\t\tSELECT f.*\n\t\tFROM "
    ∷ table_name
    ∷ text " f \n\t\tJOIN UserAccount u \n\t\t\tON u.AccountID = f."
    ∷ column_file_owner_id
    ∷ text " \n\t\tWHERE u.AccountID = ? AND f."
    ∷ column_parent_id
    ∷ text " = ? AND f."
    ∷ column_deleted_on
    ∷ text " IS NULL\n\t\tORDER BY f."
    ∷ column_file_type
    ∷ text ", f."
    ∷ column_file_name
    ∷ text "\n\t\t"
    ∷ [])

abbrev crumb_columns : Str
crumb_columns = join (text ", ") (column_file_id ∷ column_parent_id ∷ column_file_name ∷ [])

abbrev crumb_columns_of_child : Str
crumb_columns_of_child = concat (
    text "fc."
    ∷ column_file_id
    ∷ text ", fc."
    ∷ column_parent_id
    ∷ text ", fc."
    ∷ column_file_name
    ∷ [])

abbrev pub breadcrumbs_query : Str
breadcrumbs_query = concat (
    text "\n\t\tWITH RECURSIVE parent_files AS (\n\t\t\tSELECT "
    ∷ crumb_columns
    ∷ text "\n\t\t\tFROM "
    ∷ table_name
    ∷ text "\n\t\t\tWHERE "
    ∷ column_file_id
    ∷ text " = ? AND "
    ∷ column_file_owner_id
    ∷ text " = ? AND "
    ∷ column_file_type
    ∷ text " = ?\n\n\t\t\tUNION ALL\n\n\t\t\tSELECT "
    ∷ crumb_columns_of_child
    ∷ text "\n\t\t\tFROM "
    ∷ table_name
    ∷ text " fc\n\t\t\tJOIN parent_files fp ON fc."
    ∷ column_file_id
    ∷ text " = fp."
    ∷ column_parent_id
    ∷ text "\n\t\t)\n\t\tSELECT "
    ∷ crumb_columns
    ∷ text " FROM parent_files;"
    ∷ [])
