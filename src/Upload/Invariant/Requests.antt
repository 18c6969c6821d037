-- ===== src/Upload/Invariant/Requests.antt =====
-- The invariant over any history of requests.
use local_drive.Base.{◌≡◌, some, find, List, [], ◌∷◌, Str, Str_eq}
use local_drive.Upload.{ChunkInfo, FileGateway, Server, Disk}
use local_drive.Upload.Requests.{
  Request, generate, chunk, complete, fail, handle, run, new_file_handler,
}
use local_drive.Upload.Invariant.{IsSession, IsServer, upload_generate_id-IsServer}
use local_drive.Upload.Invariant.Chunks.{upload_file_chunk-IsServer}
use local_drive.Upload.Invariant.Completion.{
  upload_file_complete-IsServer, upload_file_status_failed-IsServer,
}

new_file_handler-IsServer :
    (gw : FileGateway) (disk : Disk) (db : gw.Store) → IsServer gw (new_file_handler gw disk db)
unfolding new_file_handler find
new_file_handler-IsServer gw disk db id c e = cc

module _ (gw : FileGateway) (sha256 : Str → Str) (join_path : List Str → Str)
    (storage temp : Str) where
  handle-IsServer :
      (r : Request) (s : Server gw.Store)
      → IsServer gw s
      → IsServer gw (handle gw sha256 join_path storage temp r s).1
  unfolding handle
  handle-IsServer (generate id file_id now user body) s h =
      upload_generate_id-IsServer gw sha256 id file_id now user body s h
  handle-IsServer (chunk w user id value body) s h =
      upload_file_chunk-IsServer gw join_path temp w user id value body s h
  handle-IsServer (complete now w user id) s h =
      upload_file_complete-IsServer gw join_path storage now w user id s h
  handle-IsServer (fail now w user id) s h =
      upload_file_status_failed-IsServer gw join_path storage now w user id s h

  run-IsServer :
      (rs : List Request) (s : Server gw.Store)
      → IsServer gw s
      → IsServer gw (run gw sha256 join_path storage temp rs s)
  unfolding run
  run-IsServer [] s h = h
  run-IsServer (r ∷ rs) s h = run-IsServer rs _ (handle-IsServer r s h)

  -- Whatever requests the handler serves one after the other from its start, with whatever answers of the operating
  -- system and the database: every open session has a number of chunks other than 0, belongs to its
  -- file's owner, and holds only chunks whose index, with one added as an int, is not above the number
  -- of chunks; a session whose number of chunks is not negative never holds more chunks than that.
  pub run-IsSession :
      (disk : Disk) (db : gw.Store) (rs : List Request) (id : Str) (c : ChunkInfo)
      → find id
          (run gw sha256 join_path storage temp rs (new_file_handler gw disk db)).upload_sessions
        ≡ some c
      → IsSession c
  run-IsSession disk db rs =
      run-IsServer rs (new_file_handler gw disk db) (new_file_handler-IsServer gw disk db)
