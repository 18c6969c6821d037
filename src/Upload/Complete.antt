-- ===== src/Upload/Complete.antt =====
-- UploadFileComplete and UploadFileStatusFailed of src/api/file_handler.go.
use local_drive.Base.{
  ℕ, zero, suc, ◌+◌, Bool, true, not, Option, none, some, List, [], ◌∷◌, ◌++◌, Str, text, Result,
  ok, err, find, remove, Str_eq, length, take, if◌then◌else◌,
}
use local_drive.Base.Int.{ℤ, pos, negsuc, z_eq, ℤ_eq}
use local_drive.Base.Spaces.{is_empty}
use local_drive.Sql.Placeholder.{str}
use local_drive.Files.{to_file_response, upload_completed, upload_failed}
use local_drive.Files.Columns.{column_upload_status}
use local_drive.Database.{GatewayError}
use local_drive.Api.{
  UserSessionInfo, Reply, success, failure, file, flag, unauthorized_error, custom_bad_data_error,
  internal_server_error, bad_request_data, invalid_header,
}
use local_drive.Upload.{
  ChunkInfo, FileGateway, Server, Disk, mutex_remove, create, append_to, make_dir, remove_file,
  remove_files, update_upload_status_failed,
}

-- What the operating system answers in one call, by chunk index where it is asked often.
pub record CompleteWorld : Type 0 where
  pub mkdir_fails : Bool
  pub create_fails : Bool
  pub open_fails : ℕ → Bool
  pub copy_fails : ℕ → Option ℕ
  pub remove_fails : Str → Bool
  pub response_fails : Bool

pub data MergeError : Type 0 where
  missing_chunk disk_error : MergeError

-- An open file of the disk, where it is there and can be opened.
abbrev pub opened : CompleteWorld → ℕ → Str → Disk → Option (List ℕ)
opened w i path d = if w.open_fails i then none else find path d.files

-- One chunk, appended to the stored file.
unfoldable pub merge_chunk :
    CompleteWorld → Str → ℕ → List ℕ → Disk → Result MergeError (Unit {0}) × Disk
merge_chunk w stored i bytes d = elim (w.copy_fails i) [
  | none ↦ (ok tt, append_to stored bytes d)
  | some n ↦ (err disk_error, remove_file w.remove_fails stored (append_to stored (take n bytes) d))
]

-- The body of the loop: the chunk's path, its file, the copy.
unfoldable pub merge_at :
    CompleteWorld → List (ℤ × Str) → Str → ℕ → Disk → Result MergeError Str × Disk
unfolding merge_chunk
merge_at w indexes stored i d = elim (find (pos i) indexes) [
  | none ↦ (err missing_chunk, d)
  | some path ↦ elim (opened w i path d) [
    | none ↦ (err disk_error, d)
    | some bytes ↦
        let (r, d') = merge_chunk w stored i bytes d in
        elim r [ ok _ ↦ (ok path, d') | err e ↦ (err e, d') ]
  ]
]

-- What a round does with the rest of the loop: a failure ends it, a path is added to the removals.
unfoldable pub next_round :
    Result MergeError Str × Disk
    → (Disk → Result MergeError (List Str) × Disk)
    → Result MergeError (List Str) × Disk
next_round (err e, d) rest = (err e, d)
next_round (ok path, d) rest =
    let (r, d') = rest d in elim r [ ok paths ↦ (ok (path ∷ paths), d') | err e ↦ (err e, d') ]

-- `for i := range cinfo.TotalChunks`, the rounds that are left and the index. The paths of the merged
-- chunks are removed at the end.
unfoldable pub merge :
    CompleteWorld → List (ℤ × Str) → Str → ℕ → ℕ → Disk → Result MergeError (List Str) × Disk
merge w indexes stored zero i d = (ok [], d)
merge w indexes stored (suc left) i d =
    next_round (merge_at w indexes stored i d) (merge w indexes stored left (i + 1))

-- The rounds of a range over an int.
abbrev pub rounds : ℤ → ℕ
rounds (pos n) = n
rounds (negsuc n) = 0

abbrev pub merge_reply : MergeError → Reply
merge_reply missing_chunk = failure 400 (text "Missing chunks") bad_request_data
merge_reply disk_error = internal_server_error

module _ (gw : FileGateway) (join_path : List Str → Str) (storage : Str) (now : ℕ)
    (w : CompleteWorld) where
  abbrev pub failed : ChunkInfo → Server gw.Store → Server gw.Store
  failed cinfo s = record s {
    db = update_upload_status_failed gw s.db cinfo.account_id cinfo.file_info.file_id;
  }

  -- The status is written, and an error of that is only logged; the session ends.
  unfoldable pub finished : Str → ChunkInfo → List Str → Server gw.Store → Reply × Server gw.Store
  finished id cinfo paths s =
      let done = record cinfo.file_info { upload_status = upload_completed } in
      (
        success (file (to_file_response done)),
        record s {
          db =
              (gw.update_file now s.db cinfo.account_id done.file_id column_upload_status
                (str done.upload_status)).1;
          upload_mutex = mutex_remove id s.upload_mutex;
          upload_sessions = remove id s.upload_sessions;
          disk = remove_files w.remove_fails paths s.disk;
        },
      )

  -- A failure removes the stored file.
  unfoldable pub merged :
      Str
      → ChunkInfo
      → Str
      → Server gw.Store
      → Result MergeError (List Str) × Disk
      → Reply × Server gw.Store
  unfolding finished
  merged id cinfo stored s (err e, d) =
      (merge_reply e, failed cinfo (record s { disk = remove_file w.remove_fails stored d }))
  merged id cinfo stored s (ok paths, d) = finished id cinfo paths (record s { disk = d })

  unfoldable pub account_dir : ChunkInfo → Str
  account_dir cinfo = join_path (storage ∷ cinfo.account_id ∷ [])

  unfoldable pub stored_path : ChunkInfo → Str
  unfolding account_dir
  stored_path cinfo = join_path (account_dir cinfo ∷ cinfo.file_info.file_id ∷ [])

  unfoldable pub complete : Str → ChunkInfo → Server gw.Store → Reply × Server gw.Store
  unfolding merged stored_path
  complete id cinfo s =
      let stored = stored_path cinfo in
      let d = make_dir (account_dir cinfo) s.disk in
      if w.mkdir_fails
      then (internal_server_error, failed cinfo s)
      else if w.create_fails
      then (internal_server_error, failed cinfo (record s { disk = d }))
      else merged id cinfo stored s
          (merge w cinfo.chunk_indexes stored (rounds cinfo.total_chunks) 0 (create stored d))

  unfoldable pub complete_checked : Str → ChunkInfo → Server gw.Store → Reply × Server gw.Store
  complete_checked id cinfo s =
      if not (z_eq cinfo.total_chunks (pos (length cinfo.chunk_indexes)))
      then (failure 400 (text "Missing chunks") bad_request_data, s)
      else complete id cinfo s

  unfoldable pub upload_file_complete :
      Option UserSessionInfo → Str → Server gw.Store → Reply × Server gw.Store
  unfolding complete_checked
  upload_file_complete none id s = (unauthorized_error, s)
  upload_file_complete (some _) id s =
      if is_empty id
      then (custom_bad_data_error (text "Invalid upload ID") bad_request_data, s)
      else elim (find id s.upload_sessions) [
        | none ↦ (
          custom_bad_data_error (text "Request ID " ++ (id ++ text " does not exist"))
              invalid_header,
          s,
        )
        | some cinfo ↦ complete_checked id cinfo s
      ]

  -- The session ends once the status is written and the response is sent.
  unfoldable pub marked :
      Str → Server gw.Store → Result GatewayError (Unit {0}) × gw.Store → Reply × Server gw.Store
  marked id s (err e, db) = (internal_server_error, record s { db = db })
  marked id s (ok _, db) =
      if w.response_fails then (internal_server_error, record s { db = db }) else (
        success (flag true),
        record s {
          db = db;
          upload_mutex = mutex_remove id s.upload_mutex;
          upload_sessions = remove id s.upload_sessions;
        },
      )

  unfoldable pub upload_file_status_failed :
      Option UserSessionInfo → Str → Server gw.Store → Reply × Server gw.Store
  unfolding marked
  upload_file_status_failed none id s = (unauthorized_error, s)
  upload_file_status_failed (some _) id s =
      if is_empty id
      then (custom_bad_data_error (text "No session ID found.") bad_request_data, s)
      else elim (find id s.upload_sessions) [
        | none ↦ (custom_bad_data_error (text "Invalid session ID given.") bad_request_data, s)
        | some cinfo ↦
            marked id s
              (gw.update_upload_status s.db cinfo.account_id cinfo.file_info.file_id upload_failed)
      ]
