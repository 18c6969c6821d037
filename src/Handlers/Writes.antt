-- ===== src/Handlers/Writes.antt =====
-- The handlers of src/api/file_handler.go that change rows: PostAddFolder, RestoreDeletedFiles,
-- RenameFile, DeleteFile.
use local_drive.Base.{
  ℕ, Bool, true, false, not, Option, none, some, List, [], ◌∷◌, ◌++◌, Str, text, Result, ok, err,
  nat_eq, length, if◌then◌else◌,
}
use local_drive.Base.Int.{pos}
use local_drive.Base.Spaces.{trim_space, is_empty}
use local_drive.Files.{
  File, file_type_dir, upload_completed, new_file, to_file_response, to_file_responses,
}
use local_drive.Api.{
  UserSessionInfo, Output, Reply, success, success_with_error, panic, file, files, flag,
  unauthorized_error, internal_server_error, bad_data_error, custom_bad_data_error,
  bad_request_data, duplicate_data, not_found,
}
use local_drive.Database.{GatewayError, is_duplicate_sql_error}
use local_drive.Gateway.Files.{add_file, delete_files}
use local_drive.Gateway.Files.Changes.{rename_file, restore_deleted_files}
use local_drive.Upload.{Server}
use local_drive.Handlers.{Environment, responded}

-- RequestAddFolderInfo and RequestRenameFile of src/api/request_types.go
pub record RequestAddFolderInfo : Type 0 where
  pub name : Str
  pub parent_id : Str

pub record RequestRenameFile : Type 0 where
  pub file_id : Str
  pub new_file_name : Str

-- What decoding a body into a pointer gives: io.EOF, another error, a nil pointer, a value.
pub data Body (A : Type 0) : Type 0 where
  empty malformed null : Body A
  value : A → Body A

-- A success whose output says that not one row was changed also has an error.
unfoldable pub found_reply : (response_fails found : Bool) → Output → Str → Reply
found_reply true found output message = internal_server_error
found_reply false true output message = success output
found_reply false false output message = success_with_error output 404 message not_found

module _ (env : Environment) where
  open env use {db, sha256, is_uuid}

  folder_name : Str → Str
  folder_name name = if is_empty name then text "New folder" else name

  unfoldable pub new_folder :
      (file_id : Str) (now : ℕ) → UserSessionInfo → RequestAddFolderInfo → File
  unfolding folder_name
  new_folder file_id now user body =
      new_file sha256 file_id now user.account_id (folder_name body.name) file_type_dir [] (pos 0)
        body.parent_id upload_completed

  unfoldable pub folder_added :
      Bool
      → File
      → Server db.Store
      → Result GatewayError (Unit {0}) × db.Store
      → Reply × Server db.Store
  unfolding responded
  folder_added response_fails f s (err e, db') = (internal_server_error, record s { db = db' })
  folder_added response_fails f s (ok _, db') =
      (responded response_fails (file (to_file_response f)), record s { db = db' })

  -- With the generated ID, the current time, the user of the context and the decoded body.
  unfoldable pub post_add_folder :
      Bool
      → (file_id : Str) (now : ℕ) → Option UserSessionInfo
      → Option RequestAddFolderInfo
      → Server db.Store
      → Reply × Server db.Store
  unfolding folder_added new_folder
  post_add_folder response_fails file_id now none body s = (unauthorized_error, s)
  post_add_folder response_fails file_id now (some user) none s = (bad_data_error, s)
  post_add_folder response_fails file_id now (some user) (some body) s =
      let folder = new_folder file_id now user body in
      folder_added response_fails folder s (add_file db s.db (folder ∷ []))

  unfoldable pub files_restored :
      Bool → Server db.Store → Result GatewayError (List File) × db.Store → Reply × Server db.Store
  unfolding found_reply
  files_restored response_fails s (err e, db') = (internal_server_error, record s { db = db' })
  files_restored response_fails s (ok fs, db') = (
    found_reply response_fails (nat_eq (length fs) 1) (files (to_file_responses fs))
        (text "Failed to restore file, the file does not exist"),
    record s { db = db' },
  )

  unfoldable pub restore_deleted_file :
      Bool → Option UserSessionInfo → (id : Str) → Server db.Store → Reply × Server db.Store
  unfolding files_restored
  restore_deleted_file response_fails none id s =
      if is_empty (trim_space id)
      then (custom_bad_data_error (text "File ID cannot be empty") bad_request_data, s)
      else (unauthorized_error, s)
  restore_deleted_file response_fails (some user) id s =
      if is_empty (trim_space id)
      then (custom_bad_data_error (text "File ID cannot be empty") bad_request_data, s)
      else files_restored response_fails s (restore_deleted_files db s.db user.account_id (id ∷ []))

  unfoldable pub rename_error : Str → GatewayError → Reply
  rename_error name e =
      if is_duplicate_sql_error e
      then custom_bad_data_error (text "File name " ++ (name ++ text " already exists"))
          duplicate_data
      else internal_server_error

  unfoldable pub file_renamed :
      Bool → Str → Server db.Store → Result GatewayError File × db.Store → Reply × Server db.Store
  unfolding rename_error responded
  file_renamed response_fails name s (err e, db') = (rename_error name e, record s { db = db' })
  file_renamed response_fails name s (ok f, db') =
      (responded response_fails (file (to_file_response f)), record s { db = db' })

  unfoldable pub rename_checked :
      Bool → ℕ → UserSessionInfo → RequestRenameFile → Server db.Store → Reply × Server db.Store
  unfolding file_renamed
  rename_checked response_fails now user body s =
      if is_empty (trim_space body.new_file_name)
      then (custom_bad_data_error (text "File name cannot be empty") bad_request_data, s)
      else if not (is_uuid body.file_id)
      then (custom_bad_data_error (text "File ID is invalid") bad_request_data, s)
      else file_renamed response_fails body.new_file_name s
          (rename_file db now s.db user.account_id body.file_id body.new_file_name)

  -- A body that is the JSON null leaves the pointer nil, and reading its field panics.
  unfoldable pub rename_file_handler :
      Bool
      → ℕ
      → Option UserSessionInfo
      → Body RequestRenameFile
      → Server db.Store
      → Reply × Server db.Store
  unfolding rename_checked
  rename_file_handler response_fails now none body s = (unauthorized_error, s)
  rename_file_handler response_fails now (some user) empty s =
      (custom_bad_data_error (text "No body was given with the request") bad_request_data, s)
  rename_file_handler response_fails now (some user) malformed s = (internal_server_error, s)
  rename_file_handler response_fails now (some user) null s = (panic, s)
  rename_file_handler response_fails now (some user) (value body) s =
      rename_checked response_fails now user body s

  unfoldable pub file_deleted :
      Bool → Server db.Store → Result GatewayError ℕ × db.Store → Reply × Server db.Store
  unfolding found_reply
  file_deleted response_fails s (err e, db') = (internal_server_error, record s { db = db' })
  file_deleted response_fails s (ok n, db') = (
    found_reply response_fails (nat_eq n 1) (flag (nat_eq n 1))
        (text "Failed to delete file, the file does not exist"),
    record s { db = db' },
  )

  unfoldable pub delete_file :
      Bool → ℕ → Option UserSessionInfo → (id : Str) → Server db.Store → Reply × Server db.Store
  unfolding file_deleted
  delete_file response_fails now none id s = (unauthorized_error, s)
  delete_file response_fails now (some user) id s =
      if is_empty (trim_space id)
      then (custom_bad_data_error (text "Missing file ID") bad_request_data, s)
      else file_deleted response_fails s (delete_files db now s.db user.account_id (id ∷ []))
