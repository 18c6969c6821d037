-- ===== src/Listener/Patterns.antt =====
-- RegisterHandler of src/server/server.go, and the patterns that createServer of src/app.go registers
-- (the routes of src/api/file_handler.go, user_handler.go and session_handler.go).
use local_drive.Base.{
  ◌≡◌, refl, Option, none, some, List, [], ◌∷◌, Str, text, str_eq, find, insert, Str_eq,
  if◌then◌else◌,
}
use local_drive.Handlers.Routes.{
  Request, session_get, user_register, user_login, user_logout, user_get, files_of_root,
  files_of_folder, file_download, folder_add, upload_chunk, upload_complete, upload_fail,
  upload_start, file_rename, file_restore, file_delete, folder_breadcrumbs, is_authenticated,
}

-- The methods of the handlers that are registered.
pub data Endpoint : Type 0 where
  get_validate_session post_register_user post_login post_logout : Endpoint
  get_user_by_session_id get_files download_file post_add_folder : Endpoint
  upload_file_chunk upload_file_complete upload_generate_id : Endpoint
  upload_file_status_failed rename_file restore_deleted_files delete_file : Endpoint
  get_folder_breadcrumbs : Endpoint

-- CreateRequestMiddleware or CreateAuthMiddleware of a method.
pub data Wrapped : Type 0 where
  request_middleware auth_middleware : Endpoint → Wrapped

abbrev pub Mux : Type 0
Mux = List (Str × Wrapped)

-- RegisterHandler; Handle panics where the pattern is there.
unfoldable pub register_handler : Str → Wrapped → Option Mux → Option Mux
register_handler pattern h none = none
register_handler pattern h (some mux) = elim (find pattern mux) [
  | none ↦ some (insert pattern h mux)
  | some _ ↦ none
]

-- The registrations one after the other.
unfoldable pub register_all : List (Str × Wrapped) → Option Mux → Option Mux
unfolding register_handler
register_all [] mux = mux
register_all ((pattern, h) ∷ rest) mux = register_all rest (register_handler pattern h mux)

unfoldable pub create_server : Option Mux
unfolding register_all
create_server =
    register_all
      ((text "GET /api/session", request_middleware get_validate_session)
        ∷ (text "POST /api/register", request_middleware post_register_user)
        ∷ (text "POST /api/login", request_middleware post_login)
        ∷ (text "POST /api/logout", auth_middleware post_logout)
        ∷ (text "/api/user", auth_middleware get_user_by_session_id)
        ∷ (text "GET /api/storage", auth_middleware get_files)
        ∷ (text "GET /api/storage/folder/{parentId}", auth_middleware get_files)
        ∷ (text "GET /api/download/file/{fileId}", auth_middleware download_file)
        ∷ (text "POST /api/folders/add", auth_middleware post_add_folder)
        ∷ (text "POST /api/upload/{id}/{chunkIndex}", auth_middleware upload_file_chunk)
        ∷ (text "POST /api/upload/{id}/complete", auth_middleware upload_file_complete)
        ∷ (text "POST /api/upload", auth_middleware upload_generate_id)
        ∷ (text "PATCH /api/upload/{id}/fail", request_middleware upload_file_status_failed)
        ∷ (text "PATCH /api/file/rename", auth_middleware rename_file)
        ∷ (text "PATCH /api/file/restore/{id}", auth_middleware restore_deleted_files)
        ∷ (text "DELETE /api/file/delete/{id}", auth_middleware delete_file)
        ∷ (text "GET /api/folders/{folderId}/breadcrumbs", auth_middleware get_folder_breadcrumbs)
        ∷ [])
      (some [])

-- The pattern of the route of a request, and the method that handles it.
unfoldable pub route : Request → Str × Endpoint
route (session_get now f) = (text "GET /api/session", get_validate_session)
route (user_register w body) = (text "POST /api/register", post_register_user)
route (user_login w body) = (text "POST /api/login", post_login)
route (user_logout f) = (text "POST /api/logout", post_logout)
route (user_get f) = (text "/api/user", get_user_by_session_id)
route (files_of_root f query_type) = (text "GET /api/storage", get_files)
route (files_of_folder f parent query_type) = (text "GET /api/storage/folder/{parentId}", get_files)
route (file_download w file_id) = (text "GET /api/download/file/{fileId}", download_file)
route (folder_add f file_id now body) = (text "POST /api/folders/add", post_add_folder)
route (upload_chunk w id chunk_value body) =
    (text "POST /api/upload/{id}/{chunkIndex}", upload_file_chunk)
route (upload_complete now w id) = (text "POST /api/upload/{id}/complete", upload_file_complete)
route (upload_fail now w id) = (text "PATCH /api/upload/{id}/fail", upload_file_status_failed)
route (upload_start id file_id now body) = (text "POST /api/upload", upload_generate_id)
route (file_rename f now body) = (text "PATCH /api/file/rename", rename_file)
route (file_restore f id) = (text "PATCH /api/file/restore/{id}", restore_deleted_files)
route (file_delete f now id) = (text "DELETE /api/file/delete/{id}", delete_file)
route (folder_breadcrumbs f folder_id) =
    (text "GET /api/folders/{folderId}/breadcrumbs", get_folder_breadcrumbs)

-- What a pattern is registered with.
abbrev pub registration : Str → Option Mux → Option Wrapped
registration pattern none = none
registration pattern (some mux) = find pattern mux

-- createServer does not panic on a pattern that is registered twice, and the pattern of every route is
-- registered with the method that handles its requests, in the authenticating middleware or in the
-- other one as the routes are served.
registration-create_server :
    (q : Request)
    → registration (route q).0 create_server
      ≡ some (
          if is_authenticated q
          then auth_middleware (route q).1
          else request_middleware (route q).1)
unfolding create_server register_all register_handler route is_authenticated find insert str_eq text
registration-create_server (session_get now f) = refl
registration-create_server (user_register w body) = refl
registration-create_server (user_login w body) = refl
registration-create_server (upload_fail now w id) = refl
registration-create_server (user_logout f) = refl
registration-create_server (user_get f) = refl
registration-create_server (files_of_root f query_type) = refl
registration-create_server (files_of_folder f parent query_type) = refl
registration-create_server (file_download w file_id) = refl
registration-create_server (folder_add f file_id now body) = refl
registration-create_server (upload_chunk w id chunk_value body) = refl
registration-create_server (upload_complete now w id) = refl
registration-create_server (upload_start id file_id now body) = refl
registration-create_server (file_rename f now body) = refl
registration-create_server (file_restore f id) = refl
registration-create_server (file_delete f now id) = refl
registration-create_server (folder_breadcrumbs f folder_id) = refl
