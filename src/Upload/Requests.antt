-- ===== src/Upload/Requests.antt =====
-- The requests of an upload, one after the other: calls of the handlers do not overlap.
use local_drive.Base.{ℕ, Option, List, [], ◌∷◌, Str}
use local_drive.Api.{UserSessionInfo, Reply}
use local_drive.Upload.{FileGateway, Server, Disk}
use local_drive.Upload.Generate.{RequestFileUploadInfo, upload_generate_id}
use local_drive.Upload.Chunk.{ChunkWorld, upload_file_chunk}
use local_drive.Upload.Complete.{CompleteWorld, upload_file_complete, upload_file_status_failed}

-- A call of a handler, with what the clock, the ID generator and the operating system answer.
pub data Request : Type 0 where
  generate :
      (id file_id : Str) (now : ℕ) → Option UserSessionInfo → Option RequestFileUploadInfo → Request
  chunk : ChunkWorld → Option UserSessionInfo → (id chunk_value : Str) → List ℕ → Request
  complete : (now : ℕ) → CompleteWorld → Option UserSessionInfo → (id : Str) → Request
  fail : (now : ℕ) → CompleteWorld → Option UserSessionInfo → (id : Str) → Request

module _ (gw : FileGateway) (sha256 : Str → Str) (join_path : List Str → Str)
    (storage temp : Str) where
  unfoldable pub handle : Request → Server gw.Store → Reply × Server gw.Store
  handle (generate id file_id now user body) s =
      upload_generate_id gw sha256 id file_id now user body s
  handle (chunk w user id chunk_value body) s =
      upload_file_chunk gw join_path temp w user id chunk_value body s
  handle (complete now w user id) s = upload_file_complete gw join_path storage now w user id s
  handle (fail now w user id) s = upload_file_status_failed gw join_path storage now w user id s

  unfoldable pub run : List Request → Server gw.Store → Server gw.Store
  run [] s = s
  run (r ∷ rs) s = run rs (handle r s).1

-- NewFileHandler
unfoldable pub new_file_handler : (gw : FileGateway) → Disk → gw.Store → Server gw.Store
new_file_handler gw disk db = record {
  upload_sessions = [];
  upload_mutex = [];
  disk = disk;
  db = db;
}
