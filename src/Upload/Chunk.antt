-- ===== src/Upload/Chunk.antt =====
-- UploadFileChunk of src/api/file_handler.go.
use local_drive.Base.{
  ℕ, Bool, true, false, Option, none, some, List, [], ◌∷◌, ◌++◌, Str, text, find, insert, remove,
  Str_eq, length, take, if◌then◌else◌,
}
use local_drive.Base.Int.{ℤ, pos, z_eq, z_gt, z_incr, ℤ_eq}
use local_drive.Base.Decimal.{atoi}
use local_drive.Base.Spaces.{is_empty}
use local_drive.Api.{
  UserSessionInfo, Reply, success, failure, flag, unauthorized_error, custom_bad_data_error,
  internal_server_error, bad_request_data, invalid_header,
}
use local_drive.Upload.{
  ChunkInfo, FileGateway, Server, Disk, mutex_get, create, append_to, make_dir, show_int,
  update_upload_status_failed,
}

-- What the operating system answers in one call. `random` stands for the `*` of the name that
-- CreateTemp makes. A copy that fails has written some of the bytes.
pub record ChunkWorld : Type 0 where
  pub stat_fails : Bool
  pub mkdir_fails : Bool
  pub create_fails : Bool
  pub random : Str
  pub copy_fails : Option ℕ
  pub remove_fails : Bool
  pub response_fails : Bool

abbrev pub total_message : ℤ → ℤ → Str
total_message index total =
    text "Invalid chunk index. Given chunk index is greater than the expected total chunks ("
    ++ (show_int (z_incr index) ++ (text ">" ++ (show_int total ++ text ")")))

abbrev pub exists_dir : Str → Disk → Bool
exists_dir path d = elim (find path d.dirs) [ none ↦ false | some _ ↦ true ]

-- filepath.Join
module _ (gw : FileGateway) (join_path : List Str → Str) (temp : Str) (w : ChunkWorld) where
  -- The session's file is marked as failed, and the call ends.
  abbrev pub failed : ChunkInfo → Server gw.Store → Reply × Server gw.Store
  failed cinfo s = (
    internal_server_error,
    record s { db = update_upload_status_failed gw s.db cinfo.account_id cinfo.file_info.file_id },
  )

  unfoldable pub chunk_path : Str → ℤ → Str
  chunk_path dir index = dir ++ (text "/chunk-i0" ++ (show_int index ++ (text "-" ++ w.random)))

  -- The map of the session is shared with the handler's copy, so the write is seen in the session.
  unfoldable pub recorded : Str → ChunkInfo → ℤ → Str → Server gw.Store → Server gw.Store
  recorded id cinfo index path s = record s {
    upload_sessions =
        insert id (record cinfo { chunk_indexes = insert index path cinfo.chunk_indexes })
          s.upload_sessions;
  }

  -- io.Copy of the body into the created file, and the response.
  unfoldable pub copied :
      Str → ChunkInfo → ℤ → List ℕ → Str → Server gw.Store → Reply × Server gw.Store
  copied id cinfo index body path s = elim w.copy_fails [
    | none ↦ (
      (if w.response_fails then internal_server_error else success (flag true)),
      recorded id cinfo index path (record s { disk = append_to path body s.disk }),
    )
    | some n ↦ failed cinfo (record s {
      disk =
          if w.remove_fails
          then append_to path (take n body) s.disk
          else record s.disk { files = remove path s.disk.files };
    })
  ]

  -- CreateTemp and what follows.
  unfoldable pub written : Str → ChunkInfo → ℤ → List ℕ → Server gw.Store → Reply × Server gw.Store
  unfolding copied chunk_path
  written id cinfo index body s =
      let path = chunk_path cinfo.dir index in
      if w.create_fails
      then failed cinfo s
      else copied id cinfo index body path (record s { disk = create path s.disk })

  -- MkdirAll, where the session has no directory on the disk.
  unfoldable pub with_new_dir :
      Str → ChunkInfo → ℤ → List ℕ → Server gw.Store → Reply × Server gw.Store
  unfolding written
  with_new_dir id cinfo index body s =
      let dir = join_path (temp ∷ text "lcschunks" ∷ id ∷ []) in
      let cinfo' = record cinfo { dir = dir } in
      if w.mkdir_fails
      then failed cinfo s
      else written id cinfo' index body (record s {
        disk = make_dir dir s.disk;
        upload_sessions = insert id cinfo' s.upload_sessions;
      })

  -- Under the mutex of the upload.
  unfoldable pub locked : Str → ChunkInfo → ℤ → List ℕ → Server gw.Store → Reply × Server gw.Store
  unfolding with_new_dir written
  locked id cinfo index body s =
      if w.stat_fails
      then failed cinfo s
      else if is_empty cinfo.dir
      then with_new_dir id cinfo index body s
      else if exists_dir cinfo.dir s.disk
      then written id cinfo index body s
      else with_new_dir id cinfo index body s

  -- The guards on the index and on the number of chunks.
  unfoldable pub guarded : Str → ChunkInfo → ℤ → List ℕ → Server gw.Store → Reply × Server gw.Store
  guarded id cinfo index body s =
      if z_gt (z_incr index) cinfo.total_chunks
      then (custom_bad_data_error (total_message index cinfo.total_chunks) bad_request_data, s)
      else if z_eq cinfo.total_chunks (pos (length cinfo.chunk_indexes))
      then (
        custom_bad_data_error
            (text
              "All chunks have been uploaded. Call the complete endpoint to finalize the upload.")
            bad_request_data,
        s,
      )
      else locked id cinfo index body (record s { upload_mutex = mutex_get id s.upload_mutex })

  unfoldable pub indexed :
      Str → ChunkInfo → Str → List ℕ → Server gw.Store → Reply × Server gw.Store
  unfolding guarded
  indexed id cinfo chunk_value body s = elim (atoi chunk_value) [
    | none ↦ (
      failure 400 (text "Chunk index path is not a number (got " ++ (chunk_value ++ text ")"))
          invalid_header,
      s,
    )
    | some index ↦ guarded id cinfo index body s
  ]

  -- The user of the context, the ID and index of the path, the body. The user is not compared with
  -- the session's.
  unfoldable pub upload_file_chunk :
      Option UserSessionInfo → Str → Str → List ℕ → Server gw.Store → Reply × Server gw.Store
  unfolding indexed
  upload_file_chunk none id chunk_value body s = (unauthorized_error, s)
  upload_file_chunk (some _) id chunk_value body s = elim (find id s.upload_sessions) [
    | none ↦ (custom_bad_data_error (text "Invalid upload ID") bad_request_data, s)
    | some cinfo ↦ indexed id cinfo chunk_value body s
  ]
