-- ===== src/Upload/Generate.antt =====
-- UploadGenerateId of src/api/file_handler.go.
use local_drive.Base.{
  ℕ, Option, none, some, List, [], ◌∷◌, ◌++◌, Str, text, join, Result, ok, err, insert, Str_eq,
  trim_prefix, if◌then◌else◌,
}
use local_drive.Base.Int.{ℤ, pos, z_eq}
use local_drive.Base.Spaces.{trim_space, is_empty}
use local_drive.Files.{File, new_file, file_type_file, upload_pending}
use local_drive.Database.{GatewayError, no_file_args, is_duplicate_sql_error}
use local_drive.Api.{
  UserSessionInfo, Reply, success, upload_id, unauthorized_error, bad_data_error,
  custom_bad_data_error, internal_server_error, bad_request_data, duplicate_data,
}
use local_drive.Upload.{ChunkInfo, FileGateway, Server}

-- RequestFileUploadInfo of src/api/request_types.go
pub record RequestFileUploadInfo : Type 0 where
  pub file_name : Str
  pub file_size : ℤ
  pub file_extension : Str
  pub file_parent_id : Str
  pub total_chunks : ℤ

name_errors : RequestFileUploadInfo → List Str
name_errors meta =
    if is_empty (trim_space meta.file_name) then text "file name cannot be empty" ∷ [] else []

total_errors : RequestFileUploadInfo → List Str
total_errors meta =
    if z_eq meta.total_chunks (pos 0) then text "total chunks cannot be 0" ∷ [] else []

unfoldable pub bad_data : RequestFileUploadInfo → List Str
unfolding name_errors total_errors
bad_data meta = name_errors meta ++ total_errors meta

-- The answer to an error of AddFile.
unfoldable pub add_error : File → GatewayError → Reply
add_error entry no_file_args = bad_data_error
add_error entry e =
    if is_duplicate_sql_error e
    then custom_bad_data_error
        (text "Duplicate file " ++ (entry.name ++ (text "." ++ entry.extension))) duplicate_data
    else internal_server_error

-- With the generated IDs and the time of the call.
module _ (gw : FileGateway) (sha256 : Str → Str) (id file_id : Str) (now : ℕ) where
  unfoldable pub new_entry : UserSessionInfo → RequestFileUploadInfo → File
  new_entry user meta =
      new_file sha256 file_id now user.account_id meta.file_name file_type_file
        (trim_prefix (text ".") meta.file_extension) meta.file_size meta.file_parent_id
        upload_pending

  unfoldable pub new_session : UserSessionInfo → RequestFileUploadInfo → ChunkInfo
  new_session user meta = record {
    account_id = user.account_id;
    total_chunks = meta.total_chunks;
    file_info = new_entry user meta;
    chunk_indexes = [];
    dir = [];
  }

  unfoldable pub registered :
      UserSessionInfo
      → RequestFileUploadInfo
      → Server gw.Store
      → Result GatewayError (Unit {0}) × gw.Store
      → Reply × Server gw.Store
  registered user meta s (err e, db) = (add_error (new_entry user meta) e, record s { db = db })
  registered user meta s (ok _, db) = (
    success (upload_id id),
    record s { db = db; upload_sessions = insert id (new_session user meta) s.upload_sessions },
  )

  unfoldable pub validated :
      UserSessionInfo → RequestFileUploadInfo → List Str → Server gw.Store → Reply × Server gw.Store
  unfolding registered
  validated user meta [] s = registered user meta s (gw.add_file s.db (new_entry user meta ∷ []))
  validated user meta (e ∷ errors) s = (
    custom_bad_data_error (text "Invalid data: '" ++ (join (text ", ") (e ∷ errors) ++ text "'"))
        bad_request_data,
    s,
  )

  -- The user of the context and the decoded body, where there is one.
  unfoldable pub upload_generate_id :
      Option UserSessionInfo
      → Option RequestFileUploadInfo
      → Server gw.Store
      → Reply × Server gw.Store
  unfolding validated
  upload_generate_id none body s = (unauthorized_error, s)
  upload_generate_id (some user) none s = (bad_data_error, s)
  upload_generate_id (some user) (some meta) s = validated user meta (bad_data meta) s
