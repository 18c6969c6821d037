-- ===== src/Upload/Overlap.antt =====
-- Calls of UploadFileChunk that overlap. A call reads the session and tests the index, waits for the
-- mutex of the upload, finds or makes the directory of the session while it holds the mutex, writes and
-- records the chunk, and lets go of the mutex. Its copy of the session has the same map of chunks as the
-- session, so it sees the chunks that were recorded in between. Looking up the session and the mutex
-- are one step each; the code's maps are not synchronised, and what the runtime does where a lookup and
-- a write of one map meet is not modelled.
pub mod AtOnce
pub mod Steps
use local_drive.Base.{
  ℕ, ◌<◌, ◌≤◌, ◌≡◌, ◌≢◌, refl, sym, ap, ◌∙◌, Bool, true, false, Option, none, some, List, ◌++◌, Str,
  text, Result, ok, err, find, length, Str_eq, Option-cases, inl, inr, arith, if◌then◌else◌, [],
  ◌∷◌, insert,
}
use local_drive.Base.Int.{ℤ, pos, max_int, z_eq, z_gt, z_incr, ℤ_eq}
use local_drive.Base.Spaces.{is_empty}
use local_drive.Base.Decimal.{atoi, show, atoi-show}
use local_drive.Api.{
  UserSessionInfo, Reply, failure, unauthorized_error, custom_bad_data_error, bad_request_data,
  invalid_header,
}
use local_drive.Upload.{ChunkInfo, FileGateway, Server, mutex_get, make_dir}
use local_drive.Upload.Chunk.{
  ChunkWorld, total_message, failed, exists_dir, written, with_new_dir, locked, guarded, indexed,
  upload_file_chunk,
}

unfoldable pub begin_guarded : ChunkInfo → ℤ → Result Reply (ChunkInfo × ℤ)
begin_guarded cinfo index =
    if z_gt (z_incr index) cinfo.total_chunks
    then err (custom_bad_data_error (total_message index cinfo.total_chunks) bad_request_data)
    else if z_eq cinfo.total_chunks (pos (length cinfo.chunk_indexes))
    then err (
        custom_bad_data_error
          (text "All chunks have been uploaded. Call the complete endpoint to finalize the upload.")
          bad_request_data)
    else ok (cinfo, index)

unfoldable pub begin_indexed : ChunkInfo → Str → Result Reply (ChunkInfo × ℤ)
unfolding begin_guarded
begin_indexed cinfo chunk_value = elim (atoi chunk_value) [
  | none ↦ err (
      failure 400 (text "Chunk index path is not a number (got " ++ (chunk_value ++ text ")"))
        invalid_header)
  | some index ↦ begin_guarded cinfo index
]

-- A call up to the mutex: its reply, or the copy of the session and the index that it goes on with.
unfoldable pub begin_chunk :
    {Store : Type 0}
    → Option UserSessionInfo
    → Str
    → Str
    → Server Store
    → Result Reply (ChunkInfo × ℤ)
unfolding begin_indexed
begin_chunk none id chunk_value s = err unauthorized_error
begin_chunk (some _) id chunk_value s = elim (find id s.upload_sessions) [
  | none ↦ err (custom_bad_data_error (text "Invalid upload ID") bad_request_data)
  | some cinfo ↦ begin_indexed cinfo chunk_value
]

-- MutexMap.Get, before the call waits for the mutex.
abbrev pub with_mutex : {Store : Type 0} → Str → Server Store → Server Store
with_mutex id s = record s { upload_mutex = mutex_get id s.upload_mutex }

-- All copies of a session share its map of chunks, so the copy is read with the map of the session as
-- it is now.
abbrev pub shared : ChunkInfo → ChunkInfo → ChunkInfo
shared copy now = record copy { chunk_indexes = now.chunk_indexes }

module _ (gw : FileGateway) (join_path : List Str → Str) (temp : Str) where
  -- A call that has the mutex, up to the directory: what it failed with, or its copy with the directory
  -- that the chunk's file goes to.
  unfoldable pub enter_new_dir :
      ChunkWorld
      → Str
      → ChunkInfo
      → Server gw.Store
      → Result (Reply × Server gw.Store) (ChunkInfo × Server gw.Store)
  enter_new_dir w id cinfo s =
      let dir = join_path (temp ∷ text "lcschunks" ∷ id ∷ []) in
      let cinfo' = record cinfo { dir = dir } in
      if w.mkdir_fails
      then err (failed gw join_path temp w cinfo s)
      else ok (
        cinfo',
        record s {
          disk = make_dir dir s.disk;
          upload_sessions = insert id cinfo' s.upload_sessions;
        },
      )

  unfoldable pub enter_chunk :
      ChunkWorld
      → Str
      → (copy now : ChunkInfo) → Server gw.Store
      → Result (Reply × Server gw.Store) (ChunkInfo × Server gw.Store)
  unfolding enter_new_dir
  enter_chunk w id copy now s =
      if w.stat_fails
      then err (failed gw join_path temp w (shared copy now) s)
      else if is_empty copy.dir
      then enter_new_dir w id (shared copy now) s
      else if exists_dir copy.dir s.disk
      then ok (shared copy now, s)
      else enter_new_dir w id (shared copy now) s

  -- The rest of the call, until it lets go of the mutex.
  unfoldable pub leave_chunk :
      ChunkWorld
      → Str
      → (cinfo now : ChunkInfo) → ℤ
      → List ℕ
      → Server gw.Store
      → Reply × Server gw.Store
  leave_chunk w id cinfo now index body s =
      written gw join_path temp w id (shared cinfo now) index body s

-- What a call goes on with is the session as it was.
begin_guarded-ok :
    (c copy : ChunkInfo) (i index : ℤ) → begin_guarded c i ≡ ok (copy, index) → c ≡ copy
unfolding begin_guarded
begin_guarded-ok c copy i index h = ground arith

begin_indexed-ok :
    (c copy : ChunkInfo) (value : Str) (index : ℤ)
    → begin_indexed c value ≡ ok (copy, index)
    → c ≡ copy
unfolding begin_indexed
begin_indexed-ok c copy value index h = elim (Option-cases (atoi value)) [
  | inl e ↦ cc
  | inr (i, e) ↦
      let passed : begin_guarded c i ≡ ok (copy, index) = cc in
      begin_guarded-ok c copy i index passed
]

pub begin_chunk-ok :
    {Store : Type 0} (u : UserSessionInfo) (id value : Str) (s : Server Store) (copy : ChunkInfo)
    (index : ℤ)
    → begin_chunk (some u) id value s ≡ ok (copy, index)
    → find id s.upload_sessions ≡ some copy
unfolding begin_chunk
begin_chunk-ok u id value s copy index h = elim (Option-cases (find id s.upload_sessions)) [
  | inl e ↦ cc
  | inr (c, e) ↦
      let passed : begin_indexed c value ≡ ok (copy, index) = cc in
      e ∙ ap some (begin_indexed-ok c copy value index passed)
]

-- The call for an index of a session that is short of its number of chunks goes on.
pub begin_chunk-accepted :
    {Store : Type 0} (u : UserSessionInfo) (id : Str) (s : Server Store) (c : ChunkInfo) (n j : ℕ)
    → find id s.upload_sessions ≡ some c
    → c.total_chunks ≡ pos n
    → n ≤ max_int
    → j < n
    → n ≢ length c.chunk_indexes
    → begin_chunk (some u) id (show j) s ≡ ok (c, pos j)
unfolding begin_chunk begin_indexed begin_guarded
begin_chunk-accepted u id s c n j e t m lt room =
    let gt : z_gt (z_incr (pos j)) c.total_chunks ≡ false =
      ap (z_gt (z_incr (pos j))) t ∙ ground arith in
    let eq : z_eq c.total_chunks (pos (length c.chunk_indexes)) ≡ false =
      ap (λ z. z_eq z (pos (length c.chunk_indexes))) t ∙ ground arith in
    rw (e, begin_chunk) (rw (atoi-show j (omega (arith, lt, m)), begin_indexed) (rw (gt, eq) refl))
