-- ===== src/Upload/Tests/Stuck.antt =====
-- A session that takes a negative index, and what becomes of it.
use local_drive.Base.{
  ◌≡◌, refl, some, List, [], ◌∷◌, ◌++◌, text, str_eq, find, insert, Str_eq, arith,
}
use local_drive.Base.Int.{pos, negsuc, ℤ_eq}
use local_drive.Base.Decimal.{atoi, show}
use local_drive.Base.Spaces.{trim_space}
use local_drive.Files.{File}
use local_drive.Upload.{ChunkInfo, Server, mutex_get, show_int}
use local_drive.Upload.Generate.{
  bad_data, new_entry, new_session, registered, validated, upload_generate_id,
}
use local_drive.Upload.Chunk.{
  chunk_path, recorded, copied, written, with_new_dir, locked, guarded, indexed, upload_file_chunk,
}
use local_drive.Upload.Requests.{Request, chunk, complete, handle, run, new_file_handler}
use local_drive.Upload.Stuck.Attempts.{run_stuck}
use local_drive.Upload.Tests.{
  ada, as_is, chunk_world, complete_world, empty_disk, id, join_path, keeping, requests, session,
}

-- The session takes the indexes 0 and -1 of its two chunks.
abbrev lacking : ChunkInfo
lacking = record session {
  chunk_indexes =
      (pos 0, text "tmp/lcschunks/u1//chunk-i00-77")
      ∷ (negsuc 0, text "tmp/lcschunks/u1//chunk-i0-1-77")
      ∷ [];
}

abbrev first_requests : List Request
first_requests = requests ++ (chunk chunk_world (some ada) id (text "-1") (9 ∷ []) ∷ [])

reached : Server (List File)
reached =
    run keeping as_is join_path (text "store") (text "tmp") first_requests
      (new_file_handler keeping empty_disk [])

reached_test : find id reached.upload_sessions ≡ some lacking
unfolding reached run handle new_file_handler upload_generate_id validated registered bad_data
    new_session new_entry upload_file_chunk indexed guarded locked with_new_dir written copied
    recorded chunk_path mutex_get show_int find insert text str_eq atoi trim_space show
reached_test = refl

-- The chunk that is missing, and completing.
abbrev later_requests : List Request
later_requests =
    chunk chunk_world (some ada) id (text "1") (3 ∷ [])
    ∷ complete 3000 complete_world (some ada) id
    ∷ []

run_stuck_example :
    find id
      (run keeping as_is join_path
        (text "store")
        (text "tmp")
        later_requests
        reached).upload_sessions
    ≡ some lacking
unfolding new_session find
run_stuck_example =
    run_stuck keeping as_is join_path (text "store") (text "tmp") id lacking 1 later_requests
      reached refl (omega arith) refl reached_test (refl, (refl, tt))
