-- ===== src/Handlers/Routes.antt =====
-- The routes that createServer of src/app.go registers, each with its middleware.
use local_drive.Base.{ℕ, Bool, true, false, Option, List, [], Str, if◌then◌else◌}
use local_drive.Api.{Response, no_response, written}
use local_drive.Upload.{Server}
use local_drive.Upload.Generate.{RequestFileUploadInfo, upload_generate_id}
use local_drive.Upload.Chunk.{ChunkWorld, upload_file_chunk}
use local_drive.Upload.Complete.{CompleteWorld, upload_file_complete, upload_file_status_failed}
use local_drive.Handlers.{Environment, file_gateway}
use local_drive.Handlers.Reads.{DownloadWorld, download_file, get_files, get_folder_breadcrumbs}
use local_drive.Handlers.Writes.{
  Body, RequestAddFolderInfo, RequestRenameFile, post_add_folder, restore_deleted_file,
  rename_file_handler, delete_file,
}
use local_drive.Handlers.Accounts.{
  AccountWorld, RequestUserLoginInfo, RequestUserRegisterInfo, get_user_of_session, post_login,
  post_logout, post_register_user, get_validate_session,
}
use local_drive.Handlers.Middleware.{
  Handler, replying, create_request_middleware, create_auth_middleware,
}

-- A request to a route: the values of its path and its decoded body, and what the clock, the
-- generators and the operating system answer in its handler.
pub data Request : Type 0 where
  session_get : (now : ℕ) (response_fails : Bool) → Request
  user_register : AccountWorld → Option RequestUserRegisterInfo → Request
  user_login : AccountWorld → Option RequestUserLoginInfo → Request
  user_logout user_get : (response_fails : Bool) → Request
  files_of_root : (response_fails : Bool) (query_type : Str) → Request
  files_of_folder : (response_fails : Bool) (parent query_type : Str) → Request
  file_download : DownloadWorld → (file_id : Str) → Request
  folder_add :
      (response_fails : Bool) (file_id : Str) (now : ℕ) → Option RequestAddFolderInfo → Request
  upload_chunk : ChunkWorld → (id chunk_value : Str) → List ℕ → Request
  upload_complete upload_fail : (now : ℕ) → CompleteWorld → (id : Str) → Request
  upload_start : (id file_id : Str) (now : ℕ) → Option RequestFileUploadInfo → Request
  file_rename : (response_fails : Bool) (now : ℕ) → Body RequestRenameFile → Request
  file_restore : (response_fails : Bool) (id : Str) → Request
  file_delete : (response_fails : Bool) (now : ℕ) (id : Str) → Request
  folder_breadcrumbs : (response_fails : Bool) (folder_id : Str) → Request

-- Whether createServer wraps the handler of the route by CreateAuthMiddleware.
unfoldable pub is_authenticated : Request → Bool
is_authenticated (session_get now response_fails) = false
is_authenticated (user_register w body) = false
is_authenticated (user_login w body) = false
is_authenticated (upload_fail now w id) = false
is_authenticated _ = true

module _ (env : Environment) where
  open env use {db, sha256, join_path, storage, temp}

  -- The handler of a route, with the request's cookie.
  unfoldable pub handler : Request → Option Str → Handler env
  handler (session_get now f) cookie user r s = (get_validate_session env now f cookie r s, s)
  handler (user_register w body) cookie user r s = post_register_user env w body r s
  handler (user_login w body) cookie user r s = post_login env w cookie body r s
  handler (user_logout f) cookie user r s = post_logout env f cookie r s
  handler (user_get f) cookie user r s = (get_user_of_session env f cookie r s, s)
  handler (files_of_root f query_type) cookie user r s =
      (written (get_files env f user [] query_type s) r, s)
  handler (files_of_folder f parent query_type) cookie user r s =
      (written (get_files env f user parent query_type s) r, s)
  handler (file_download w file_id) cookie user r s =
      (written (download_file env w user file_id s) r, s)
  handler (folder_add f file_id now body) cookie user r s =
      replying env (post_add_folder env f file_id now user body s) r
  handler (upload_chunk w id chunk_value body) cookie user r s =
      replying env (upload_file_chunk (file_gateway db) join_path temp w user id chunk_value body s)
        r
  handler (upload_complete now w id) cookie user r s =
      replying env (upload_file_complete (file_gateway db) join_path storage now w user id s) r
  handler (upload_fail now w id) cookie user r s =
      replying env (upload_file_status_failed (file_gateway db) join_path storage now w user id s) r
  handler (upload_start id file_id now body) cookie user r s =
      replying env (upload_generate_id (file_gateway db) sha256 id file_id now user body s) r
  handler (file_rename f now body) cookie user r s =
      replying env (rename_file_handler env f now user body s) r
  handler (file_restore f id) cookie user r s =
      replying env (restore_deleted_file env f user id s) r
  handler (file_delete f now id) cookie user r s = replying env (delete_file env f now user id s) r
  handler (folder_breadcrumbs f folder_id) cookie user r s =
      (written (get_folder_breadcrumbs env f user folder_id s) r, s)

  -- One request at a time, with the cookie that it brings.
  unfoldable pub serve :
      (now : ℕ) → Request → Option Str → Server db.Store → Response × Server db.Store
  unfolding create_auth_middleware create_request_middleware
  serve now q cookie s =
      if is_authenticated q
      then create_auth_middleware env (handler q cookie) now cookie no_response s
      else create_request_middleware env (handler q cookie) no_response s
