-- ===== src/Handlers/Reads.antt =====
-- The handlers of src/api/file_handler.go that only read: DownloadFile, GetFiles, GetFolderBreadcrumbs.
use local_drive.Base.{
  ℕ, Bool, true, false, Option, none, some, List, [], ◌∷◌, ◌++◌, Str, text, concat, Result, ok, err,
  find, Str_eq, take, str_eq, trim_prefix, if◌then◌else◌,
}
use local_drive.Base.Spaces.{is_empty}
use local_drive.Files.{File, FileResponse, file_type_dir, to_file_responses}
use local_drive.Api.{
  UserSessionInfo, Reply, failure, stream, files, folders, unauthorized_error,
  internal_server_error, bad_data_error, custom_bad_data_error, bad_request_data,
  file_does_not_exist,
}
use local_drive.Database.{GatewayError}
use local_drive.Database
use local_drive.Gateway.Files.{get_file}
use local_drive.Gateway.Files.Listing.{
  BreadcrumbFile, get_files_by_account_id_and_parent_id, get_deleted_files, get_breadcrumbs,
}
use local_drive.Upload.{Server, Disk, show_int}
use local_drive.Handlers.{Environment, responded}

-- responseError of src/api/errors.go
abbrev invalid_file_id : Reply
invalid_file_id = failure 400 (text "Invalid file ID") bad_request_data

-- The response of getFiles and of getDeletedFiles, an error included.
unfoldable pub files_reply : Bool → Result GatewayError (List File) → Reply
unfolding responded
files_reply response_fails (err Database.file_does_not_exist) = invalid_file_id
files_reply response_fails (err e) = internal_server_error
files_reply response_fails (ok fs) = responded response_fails (files (to_file_responses fs))

unfoldable pub deleted_reply : Bool → Result GatewayError (List FileResponse) → Reply
unfolding responded
deleted_reply response_fails (err e) = internal_server_error
deleted_reply response_fails (ok fs) = responded response_fails (files fs)

unfoldable pub breadcrumbs_reply : Bool → Result GatewayError (List BreadcrumbFile) → Reply
unfolding responded
breadcrumbs_reply response_fails (err e) = internal_server_error
breadcrumbs_reply response_fails (ok []) =
    custom_bad_data_error (text "File not found") bad_request_data
breadcrumbs_reply response_fails (ok (f ∷ fs)) = responded response_fails (folders (f ∷ fs))

-- What the operating system answers: a file that cannot be opened, a copy that stops early.
pub record DownloadWorld : Type 0 where
  pub open_fails : Bool
  pub copy_fails : Option ℕ

abbrev opened : DownloadWorld → Str → Disk → Option (List ℕ)
opened w path d = if w.open_fails then none else find path d.files

module _ (env : Environment) where
  open env use {db, join_path, path_escape, storage}

  unfoldable pub file_name : File → Str
  file_name f = f.name ++ (text "." ++ trim_prefix (text ".") f.extension)

  unfoldable pub headers : File → List (Str × Str)
  unfolding file_name
  headers f =
      (text "Accept-Ranges", text "bytes")
      ∷ (text "Content-Type", text "application/octet-stream")
      ∷ (
        text "Content-Disposition",
        concat (
            text "attachment; filename=\""
            ∷ file_name f
            ∷ text "\"; filename*=UTF-8''"
            ∷ path_escape (file_name f)
            ∷ []),
      )
      ∷ (text "Access-Control-Expose-Headers", text "Content-Disposition")
      ∷ (text "Content-Length", show_int f.size)
      ∷ []

  unfoldable pub streamed : DownloadWorld → File → Option (List ℕ) → Reply
  unfolding headers
  streamed w f none = internal_server_error
  streamed w f (some bytes) = elim w.copy_fails [
    | none ↦ stream (headers f) bytes false
    | some n ↦ stream (headers f) (take n bytes) true
  ]

  unfoldable pub downloaded : DownloadWorld → Disk → Result GatewayError (Option File) → Reply
  unfolding streamed
  downloaded w d (err e) = internal_server_error
  downloaded w d (ok none) = custom_bad_data_error (text "Bad request data") file_does_not_exist
  downloaded w d (ok (some f)) =
      if str_eq f.type file_type_dir
      then bad_data_error
      else streamed w f (opened w (join_path (storage ∷ f.path ∷ [])) d)

  -- The user of the context and the value of the path.
  unfoldable pub download_file :
      DownloadWorld → Option UserSessionInfo → Str → Server db.Store → Reply
  unfolding downloaded
  download_file w none file_id s = unauthorized_error
  download_file w (some user) file_id s =
      if is_empty file_id
      then bad_data_error
      else downloaded w s.disk (get_file db s.db user.account_id file_id)

  -- `query_type` is the value of `type` in the URL.
  unfoldable pub get_files :
      Bool → Option UserSessionInfo → (parent query_type : Str) → Server db.Store → Reply
  unfolding files_reply deleted_reply
  get_files response_fails none parent query_type s = unauthorized_error
  get_files response_fails (some user) parent query_type s =
      if str_eq query_type (text "trash")
      then deleted_reply response_fails (get_deleted_files db s.db user.account_id)
      else files_reply response_fails
          (get_files_by_account_id_and_parent_id db s.db user.account_id parent)

  unfoldable pub get_folder_breadcrumbs :
      Bool → Option UserSessionInfo → (folder_id : Str) → Server db.Store → Reply
  unfolding breadcrumbs_reply
  get_folder_breadcrumbs response_fails none folder_id s = unauthorized_error
  get_folder_breadcrumbs response_fails (some user) folder_id s =
      if is_empty folder_id
      then custom_bad_data_error (text "No folder ID given") bad_request_data
      else breadcrumbs_reply response_fails (get_breadcrumbs db s.db user.account_id folder_id)
