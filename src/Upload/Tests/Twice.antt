-- ===== src/Upload/Tests/Twice.antt =====
-- A witness of two calls that complete one upload.
use local_drive.Base.{refl, text}
use local_drive.Upload.Generate.{new_session}
use local_drive.Upload.Twice.Lost.{IsLost, upload_file_complete-IsLost}
use local_drive.Upload.Tests.{
  keeping, join_path, ada, complete_world, id, full, server, chunk_at, bytes_at, ready,
  session_test,
}

upload_file_complete-IsLost_example :
    IsLost keeping join_path
      (text "store")
      2000
      2001
      complete_world
      complete_world
      ada
      ada
      id
      full
      server
unfolding text new_session
upload_file_complete-IsLost_example =
    upload_file_complete-IsLost keeping join_path (text "store") 2000 2001 complete_world
      complete_world ada ada id full server 1 chunk_at bytes_at refl session_test refl refl refl
      refl ready refl refl refl refl
