-- ===== src/Upload/Tests/Whole.antt =====
-- A chunk that is taken, and a session without chunks.
use local_drive.Base.{◌≡◌, refl, some, List, [], ◌∷◌, Str, text, str_eq, find, Str_eq}
use local_drive.Base.Int.{pos, ℤ_eq}
use local_drive.Base.Decimal.{atoi}
use local_drive.Files.{File}
use local_drive.Upload.{Server}
use local_drive.Upload.Generate.{new_session}
use local_drive.Upload.Chunk.{upload_file_chunk}
use local_drive.Upload.Complete.{stored_path}
use local_drive.Upload.Recorded.{IsWorking, chunk_dir, IsRecorded, upload_file_chunk-IsRecorded}
use local_drive.Upload.Tests.{
  ada, chunk_world, complete_world, id, join_path, keeping, server, session,
}

-- The second chunk of the first session.
midway : Server (List File)
midway = record server { upload_sessions = (id, session) ∷ [] }

upload_file_chunk-IsRecorded_example :
    IsRecorded keeping join_path
      (text "tmp")
      chunk_world
      id
      session
      (pos 1)
      (3 ∷ [])
      midway
      (chunk_dir keeping join_path (text "tmp") chunk_world id session midway.disk)
      (upload_file_chunk keeping join_path
        (text "tmp")
        chunk_world
        (some ada)
        id
        (text "1")
        (3 ∷ [])
        midway)
unfolding midway find text str_eq atoi new_session
upload_file_chunk-IsRecorded_example =
    upload_file_chunk-IsRecorded keeping join_path (text "tmp") chunk_world id session (pos 1)
      (3 ∷ []) midway ada (text "1")
      (record { stat = refl; mkdir = refl; create = refl; copy = refl; response = refl }) refl refl
      refl (λ e. cc)

abbrev pub started : Server (List File)
started = record server { upload_sessions = (id, record session { chunk_indexes = [] }) ∷ [] }

abbrev pub goal : Str
goal = stored_path keeping join_path (text "store") 2000 complete_world session

pub working : IsWorking chunk_world
working = record { stat = refl; mkdir = refl; create = refl; copy = refl; response = refl }

pub started_session : find id started.upload_sessions ≡ some (record session { chunk_indexes = [] })
unfolding find text str_eq
started_session = refl
