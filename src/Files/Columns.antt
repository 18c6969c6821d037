-- ===== src/Files/Columns.antt =====
-- The column names of src/file/file.go.
use local_drive.Base.{Str, text}

abbrev pub table_name : Str
table_name = text "File"

abbrev pub column_file_owner_id : Str
column_file_owner_id = text "AccountID"

abbrev pub column_file_name : Str
column_file_name = text "FileName"

abbrev pub column_file_type : Str
column_file_type = text "FileType"

abbrev pub column_file_id : Str
column_file_id = text "FileID"

abbrev pub column_file_extension : Str
column_file_extension = text "Extension"

abbrev pub column_parent_id : Str
column_parent_id = text "ParentID"

abbrev pub column_file_path : Str
column_file_path = text "FilePath"

abbrev pub column_file_size : Str
column_file_size = text "FileSize"

abbrev pub column_modified_on : Str
column_modified_on = text "ModifiedOn"

abbrev pub column_deleted_on : Str
column_deleted_on = text "DeletedOn"

abbrev pub column_upload_status : Str
column_upload_status = text "UploadStatus"

abbrev pub column_unique_hash : Str
column_unique_hash = text "UniqueHash"
