-- ===== src/Handlers/Isolation.antt =====
-- Which rows the handlers that read can show a user.
use local_drive.Base.{◌≡◌, ap, ◌∙◌, Bool, some, List, Str, text, str_eq, if◌then◌else◌}
use local_drive.Base.Spaces.{is_empty}
use local_drive.Sql.Placeholder.{Arg, str}
use local_drive.Api.{UserSessionInfo, custom_bad_data_error, bad_data_error, bad_request_data}
use local_drive.Gateway.Files.Listing.Isolation.{
  Has, Query, answering_by, get_deleted_files-answering_by, get_files_by_parent-answering_by,
  get_breadcrumbs-answering_by, get_file-answering_by,
}
use local_drive.Gateway.Files.Listing.{get_deleted_files, get_files_by_account_id_and_parent_id}
use local_drive.Upload.{Server}
use local_drive.Handlers.{Environment}
use local_drive.Handlers.Reads.{
  DownloadWorld, headers, streamed, downloaded, download_file, files_reply, deleted_reply,
  get_files, breadcrumbs_reply, get_folder_breadcrumbs,
}

abbrev pub with_query : (env : Environment) → Query env.db → Environment
with_query env query = record env { db = answering_by env.db query }

module _ (env : Environment) (query : Query env.db) (user : UserSessionInfo)
    (same : (s : env.db.Store) (q : Str) (args : List Arg)
      → Has (str user.account_id) args
      → query s q args ≡ env.db.query s q args) where
  open env use {db}

  get_files-with_query :
      (f : Bool) (parent query_type : Str) (s : Server db.Store)
      → get_files (with_query env query) f (some user) parent query_type s
        ≡ get_files env f (some user) parent query_type s
  unfolding get_files
  get_files-with_query f parent query_type s =
      ap
        (λ r.
          if str_eq query_type (text "trash")
          then deleted_reply f r
          else files_reply f (
              get_files_by_account_id_and_parent_id (answering_by db query) s.db user.account_id
                parent))
        (get_deleted_files-answering_by db query user.account_id same s.db)
      ∙ ap
          (λ r.
            if str_eq query_type (text "trash")
            then deleted_reply f (get_deleted_files db s.db user.account_id)
            else files_reply f r)
          (get_files_by_parent-answering_by db query user.account_id same s.db parent)

  get_folder_breadcrumbs-with_query :
      (f : Bool) (folder_id : Str) (s : Server db.Store)
      → get_folder_breadcrumbs (with_query env query) f (some user) folder_id s
        ≡ get_folder_breadcrumbs env f (some user) folder_id s
  unfolding get_folder_breadcrumbs
  get_folder_breadcrumbs-with_query f folder_id s =
      ap
        (λ r.
          if is_empty folder_id
          then custom_bad_data_error (text "No folder ID given") bad_request_data
          else breadcrumbs_reply f r)
        (get_breadcrumbs-answering_by db query user.account_id same s.db folder_id)

  download_file-with_query :
      (w : DownloadWorld) (file_id : Str) (s : Server db.Store)
      → download_file (with_query env query) w (some user) file_id s
        ≡ download_file env w (some user) file_id s
  unfolding download_file downloaded streamed headers
  download_file-with_query w file_id s =
      ap (λ r. if is_empty file_id then bad_data_error else downloaded env w s.disk r)
        (get_file-answering_by db query user.account_id same s.db file_id)

  -- Two databases that answer every query with the user's account among its arguments alike, whatever
  -- they answer to other queries: listing files, deleted ones too, the breadcrumbs of a folder and the
  -- download of a file answer the user alike.
  pub reads-with_query :
      (f : Bool) (w : DownloadWorld) (id query_type : Str) (s : Server db.Store)
      → (get_files (with_query env query) f (some user) id query_type s
          ≡ get_files env f (some user) id query_type s)
        × (get_folder_breadcrumbs (with_query env query) f (some user) id s
            ≡ get_folder_breadcrumbs env f (some user) id s)
        × (download_file (with_query env query) w (some user) id s
            ≡ download_file env w (some user) id s)
  reads-with_query f w id query_type s = (
    get_files-with_query f id query_type s,
    get_folder_breadcrumbs-with_query f id s,
    download_file-with_query w id s,
  )
