-- ===== src/Handlers/Tests/Download.antt =====
-- Witness of an upload of two chunks, the second one first, and a download.
use mathlib.Core.Option.{some-injective}
use local_drive.Base.{
  ℕ, zero, suc, ◌<◌, ◌≡◌, ◌≢◌, refl, sym, ◌∙◌, subst, inl, inr, false, none, some, List, [], ◌∷◌,
  Str, text, str_eq, str_eq-false, join, ok, find, insert, Str_eq, arith,
}
use local_drive.Base.Int.{pos, ℤ_eq}
use local_drive.Base.Decimal.{atoi, show}
use local_drive.Sql.Placeholder.{Arg, build_placeholder}
use local_drive.Sql.Node.{build_query, new_condition_node}
use local_drive.Sql.Clause.{
  build_clause, build_condition_string, parts, connective, equal_to, add_new_node, and_then,
  set_last, new_condition_clause, query_builder_build,
}
use local_drive.Sql.Select.{select, select_where, build_select, select_query, write_select}
use local_drive.Sql.Update.{update, update_where, build_update, update_query, write_update}
use local_drive.Files.{File, row, file_type_file, upload_completed}
use local_drive.Api.{UserSessionInfo, stream}
use local_drive.Gateway.Files.{
  get_file, get_file_query, of_file, update_file, done, changed, counted, update_file_query,
}
use local_drive.Files.Flatten.{scan_all, scan}
use local_drive.Database.{exec_query}
use local_drive.Upload.{ChunkInfo, Server, mutex_get, show_int}
use local_drive.Upload.Chunk.{
  ChunkWorld, chunk_path, recorded, copied, written, with_new_dir, locked, guarded, indexed,
  upload_file_chunk,
}
use local_drive.Upload.Complete.{
  stored_path, account_dir, finished, merged, complete, complete_checked, merge_chunk, merge_at,
  next_round, merge, upload_file_complete,
}
use local_drive.Upload.Merge.{joined}
use local_drive.Upload.Recorded.{IsWorking}
use local_drive.Upload.Held.{In}
use local_drive.Upload.Whole.{Uploads, none_yet, and_chunk, next_path}
use local_drive.Handlers.{file_gateway}
use local_drive.Handlers.Reads.{DownloadWorld, headers, download_file}
use local_drive.Handlers.RoundTrip.{Uploads-download_file}
use local_drive.Handlers.Tests.{replacing, environment, server, complete_world}

abbrev notes : File
notes = record {
  owner_id = text "acc";
  name = text "notes";
  type = file_type_file;
  file_id = text "f1";
  extension = text "txt";
  parent_id = [];
  path = text "acc/f1";
  size = pos 3;
  modified_on = 1000;
  deleted_on = none;
  upload_status = upload_completed;
  unique_hash = text "h";
}

abbrev rows : List (List Arg)
rows = row notes ∷ []

abbrev id : Str
id = text "u1"

abbrev session : ChunkInfo
session = record {
  total_chunks = pos 2;
  dir = [];
  account_id = text "acc";
  file_info = notes;
  chunk_indexes = [];
}

abbrev started : Server (List (List Arg))
started = record (server []) { upload_sessions = (id, session) ∷ [] }

abbrev chunk_world : ChunkWorld
chunk_world = record {
  stat_fails = false;
  mkdir_fails = false;
  create_fails = false;
  random = text "77";
  copy_fails = none;
  remove_fails = false;
  response_fails = false;
}

abbrev bytes_at : ℕ → List ℕ
bytes_at zero = 1 ∷ 2 ∷ []
bytes_at (suc n) = 3 ∷ []

abbrev ada : UserSessionInfo
ada = record {
  session_id = text "s";
  expire_on = 9000;
  username = text "ada";
  account_id = text "acc";
}

abbrev goal : Str
goal = text "store/acc/f1"

abbrev uploaded : ℕ → Server (List (List Arg)) → Server (List (List Arg))
uploaded j s =
    (upload_file_chunk (file_gateway (replacing rows)) (join (text "/")) (text "tmp") chunk_world
      (some ada) id (show j) (bytes_at j) s).1

-- What the step of an upload asks of the path.
abbrev IsFree : ℕ → Server (List (List Arg)) → ChunkInfo → Type 0
IsFree j s c =
    let p =
      next_path (file_gateway (replacing rows)) (join (text "/")) (text "tmp") goal id 2 bytes_at
        chunk_world c j s in
    (find p s.disk.files ≡ none) × (goal ≢ p)

started_session : find id started.upload_sessions ≡ some session
unfolding find text str_eq
started_session = refl

IsFree-first : (c : ChunkInfo) → find id started.upload_sessions ≡ some c → IsFree 1 started c
unfolding find text str_eq chunk_path show_int show join
IsFree-first c e =
    subst (IsFree 1 started) (some-injective _ c (sym started_session ∙ e))
      (refl, str_eq-false goal _ refl)

IsFree-second :
    (c : ChunkInfo)
    → find id (uploaded 1 started).upload_sessions ≡ some c
    → IsFree 0 (uploaded 1 started) c
unfolding find insert text str_eq chunk_path show_int show join upload_file_chunk indexed guarded
    locked with_new_dir written copied recorded mutex_get atoi
IsFree-second c e =
    subst (IsFree 0 (uploaded 1 started)) (some-injective _ c e) (refl, str_eq-false goal _ refl)

working : IsWorking chunk_world
working = record { stat = refl; mkdir = refl; create = refl; copy = refl; response = refl }

uploads :
    Uploads
      (file_gateway (replacing rows))
      (join (text "/"))
      (text "tmp")
      goal
      id
      2
      bytes_at
      started
      (0 ∷ 1 ∷ [])
      (uploaded 0 (uploaded 1 started))
uploads =
    and_chunk
      (and_chunk none_yet chunk_world ada 1 (omega arith) (λ h. h) (omega arith) working
        IsFree-first)
      chunk_world ada 0 (omega arith) (λ h. elim h [ inl e ↦ cc | inr k ↦ k ]) (omega arith) working
      IsFree-second

every : (j : ℕ) → j < 2 → In j (0 ∷ 1 ∷ [])
every zero h = inl refl
every (suc zero) h = inr (inl refl)
every (suc (suc j)) h = absurd (omega arith)

abbrev completed : Server (List (List Arg))
completed =
    (upload_file_complete (file_gateway (replacing rows)) (join (text "/")) (text "store") 2000
      complete_world (some ada) id (uploaded 0 (uploaded 1 started))).1

found_test : get_file (replacing rows) completed.db (text "acc") (text "f1") ≡ ok (some notes)
unfolding get_file get_file_query of_file scan_all scan update_file done changed counted
    update_file_query exec_query build_clause build_condition_string parts connective equal_to
    add_new_node and_then set_last new_condition_clause new_condition_node build_query
    build_placeholder query_builder_build select select_where build_select select_query write_select
    update update_where build_update update_query write_update text join upload_file_complete
    complete_checked complete merged finished merge merge_at merge_chunk next_round find insert
    str_eq upload_file_chunk indexed guarded locked with_new_dir written copied recorded mutex_get
    atoi show chunk_path show_int
found_test = refl

joins_test :
    join (text "/") (text "store" ∷ text "acc/f1" ∷ [])
    ≡ join (text "/") (join (text "/") (text "store" ∷ text "acc" ∷ []) ∷ text "f1" ∷ [])
unfolding join text
joins_test = refl

goal_test :
    goal
    ≡ stored_path
        (file_gateway (replacing rows))
        (join (text "/"))
        (text "store")
        2000
        complete_world
        session
unfolding stored_path account_dir join text
goal_test = refl

abbrev download_world : DownloadWorld
download_world = record { open_fails = false; copy_fails = none }

Uploads-download_file_example :
    download_file (environment rows) download_world (some ada) (text "f1") completed
    ≡ stream (headers (environment rows) notes) (joined bytes_at 0 2) false
unfolding text
Uploads-download_file_example =
    Uploads-download_file (environment rows) goal id 2 bytes_at 2000 complete_world download_world
      ada ada session started (uploaded 0 (uploaded 1 started)) completed (0 ∷ 1 ∷ [])
      (upload_file_complete (file_gateway (replacing rows)) (join (text "/")) (text "store") 2000
        complete_world (some ada) id (uploaded 0 (uploaded 1 started))).0
      notes refl (omega arith) started_session refl refl goal_test uploads refl every
      (record { mkdir = refl; create = refl; opens = λ j. refl; copies = λ j. refl }) refl refl
      found_test refl refl joins_test refl refl
