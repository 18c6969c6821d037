-- ===== src/Upload/Tests.antt =====
-- Witnesses of the uploads, and a run of requests.
mod Stuck
mod Whole
mod Interleaved
mod Twice
mod Contract
use local_drive.Base.{
  ℕ, zero, suc, ◌<◌, ◌≡◌, refl, false, none, some, List, [], ◌∷◌, ◌++◌, Str, text, str_eq, ok, find,
  insert, Str_eq, arith,
}
use local_drive.Base.Int.{pos, negsuc, ℤ_eq}
use local_drive.Base.Decimal.{atoi, show}
use local_drive.Base.Spaces.{trim_space}
use local_drive.Files.{File, new_file}
use local_drive.Api.{UserSessionInfo}
use local_drive.Upload.{ChunkInfo, FileGateway, Server, Disk, mutex_get, show_int}
use local_drive.Upload.Generate.{
  RequestFileUploadInfo, bad_data, new_entry, new_session, registered, validated,
  upload_generate_id,
}
use local_drive.Upload.Chunk.{
  ChunkWorld, chunk_path, recorded, copied, written, with_new_dir, locked, guarded, indexed,
  upload_file_chunk,
}
use local_drive.Upload.Complete.{CompleteWorld, stored_path, account_dir, upload_file_complete}
use local_drive.Upload.Requests.{Request, generate, chunk, complete, handle, run, new_file_handler}
use local_drive.Upload.Merge.{joined, IsReady}
use local_drive.Upload.Delivered.{IsDelivered, upload_file_complete-IsDelivered}
use local_drive.Upload.Recorded.{chunk_dir, IsRecorded, upload_file_chunk-IsRecorded}
use local_drive.Upload.Stuck.Attempts.{run_stuck}
use local_drive.Upload.Invariant.{IsSession}
use local_drive.Upload.Invariant.Requests.{run-IsSession}

-- A database that keeps the files it is given and refuses nothing.
abbrev pub keeping : FileGateway
keeping = record {
  Store = List File;
  add_file = λ s fs. (ok tt, fs ++ s);
  update_file = λ now s owner id column arg. (ok tt, s);
  update_upload_status = λ s owner id status. (ok tt, s);
}

abbrev pub as_is : Str → Str
as_is s = s

abbrev pub join_path : List Str → Str
join_path [] = []
join_path (p ∷ ps) = p ++ (b'/' ∷ join_path ps)

abbrev pub ada : UserSessionInfo
ada = record {
  session_id = text "s";
  expire_on = 9000;
  username = text "ada";
  account_id = text "acc";
}

abbrev pub meta : RequestFileUploadInfo
meta = record {
  file_name = text "notes";
  file_size = pos 3;
  file_extension = text "txt";
  file_parent_id = text "root";
  total_chunks = pos 2;
}

abbrev pub id : Str
id = text "u1"

abbrev pub chunk_world : ChunkWorld
chunk_world = record {
  stat_fails = false;
  mkdir_fails = false;
  create_fails = false;
  random = text "77";
  copy_fails = none;
  remove_fails = false;
  response_fails = false;
}

abbrev pub empty_disk : Disk
empty_disk = record { files = []; dirs = [] }

abbrev pub session : ChunkInfo
session = record (new_session keeping as_is id (text "f1") 1000 ada meta) {
  dir = text "tmp/lcschunks/u1/";
  chunk_indexes = (pos 0, text "tmp/lcschunks/u1//chunk-i00-77") ∷ [];
}

-- The session is registered, and its first chunk is uploaded.
abbrev pub requests : List Request
requests =
    generate id (text "f1") 1000 (some ada) (some meta)
    ∷ chunk chunk_world (some ada) id (text "0") (1 ∷ 2 ∷ [])
    ∷ []

requests_test :
    find id
      (run keeping as_is join_path
        (text "store")
        (text "tmp")
        requests
        (new_file_handler keeping empty_disk [])).upload_sessions
    ≡ some session
unfolding run handle new_file_handler upload_generate_id validated registered bad_data new_session
    new_entry upload_file_chunk indexed guarded locked with_new_dir written copied recorded
    chunk_path mutex_get show_int find insert text str_eq atoi trim_space show
requests_test = refl

run-IsSession_example : IsSession session
run-IsSession_example =
    run-IsSession keeping as_is join_path (text "store") (text "tmp") empty_disk [] requests id
      session requests_test

abbrev pub complete_world : CompleteWorld
complete_world = record {
  mkdir_fails = false;
  create_fails = false;
  open_fails = λ i. false;
  copy_fails = λ i. none;
  remove_fails = λ path. false;
  response_fails = false;
}

abbrev pub chunk_at : ℕ → Str
chunk_at zero = text "c0"
chunk_at (suc n) = text "c1"

abbrev pub bytes_at : ℕ → List ℕ
bytes_at zero = 1 ∷ 2 ∷ []
bytes_at (suc n) = 3 ∷ []

-- The second chunk came first.
abbrev pub full : ChunkInfo
full = record session { chunk_indexes = (pos 1, text "c1") ∷ (pos 0, text "c0") ∷ [] }

abbrev pub server : Server (List File)
server = record {
  upload_sessions = (id, full) ∷ [];
  upload_mutex = (id, tt) ∷ [];
  disk = record {
    files = (text "other", 9 ∷ []) ∷ (text "c1", 3 ∷ []) ∷ (text "c0", 1 ∷ 2 ∷ []) ∷ [];
    dirs = [];
  };
  db = [];
}

abbrev pub target : Str
target = stored_path keeping join_path (text "store") 2000 complete_world full

pub ready :
    (j : ℕ)
    → j < 2
    → IsReady complete_world full.chunk_indexes target server.disk.files chunk_at bytes_at j
unfolding find text str_eq stored_path account_dir new_session new_entry new_file
ready zero h = record { recorded = refl; apart = λ e. cc; held = refl; opens = refl; copies = refl }
ready (suc zero) h = record {
  recorded = refl;
  apart = λ e. cc;
  held = refl;
  opens = refl;
  copies = refl;
}
ready (suc (suc j)) h = absurd (omega arith)

pub session_test : find id server.upload_sessions ≡ some full
unfolding find text str_eq
session_test = refl

upload_file_complete-IsDelivered_example :
    IsDelivered keeping join_path
      (text "store")
      2000
      complete_world
      id
      full
      server
      2
      chunk_at
      (joined bytes_at 0 2)
      (upload_file_complete keeping join_path
        (text "store")
        2000
        complete_world
        (some ada)
        id
        server)
unfolding text new_session
upload_file_complete-IsDelivered_example =
    upload_file_complete-IsDelivered keeping join_path (text "store") 2000 complete_world id full
      server 2 chunk_at bytes_at ada refl session_test refl refl refl refl ready
