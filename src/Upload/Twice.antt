-- ===== src/Upload/Twice.antt =====
-- Two calls of UploadFileComplete for one upload that overlap: nothing holds a mutex, so the one may
-- have read the session and counted its chunks before the other runs.
pub mod Lost
use local_drive.Base.{
  ℕ, suc, ◌<◌, ◌≡◌, ◌≢◌, refl, sym, ap, ◌∙◌, not, false, Option, none, some, List, ◌++◌, Str, text,
  Result, ok, err, find, find-insert_ne, length, Str_eq, Bool-cases, inl, inr, [], arith,
  if◌then◌else◌,
}
use local_drive.Base.Int.{ℤ, pos, z_eq, z_eq_iff, ℤ_eq}
use local_drive.Base.Spaces.{is_empty}
use local_drive.Files.{to_file_response, upload_completed}
use local_drive.Api.{
  UserSessionInfo, Reply, success, failure, file, unauthorized_error, custom_bad_data_error,
  internal_server_error, bad_request_data, invalid_header,
}
use local_drive.Upload.{
  ChunkInfo, FileGateway, Server, Disk, create, make_dir, remove_file, remove_files,
  update_upload_status_failed,
}
use local_drive.Upload.Complete.{
  CompleteWorld, merge_at, next_round, merge, rounds, disk_error, account_dir, stored_path,
  finished, merged, complete, complete_checked, upload_file_complete,
}
use local_drive.Upload.Merge.{IsReady, paths_from, remove_file-gone, remove_files-none}
use local_drive.Upload.Delivered.{if-refused, upload_file_complete-finished}

unfoldable pub begin_checked : ChunkInfo → Result Reply ChunkInfo
begin_checked cinfo =
    if not (z_eq cinfo.total_chunks (pos (length cinfo.chunk_indexes)))
    then err (failure 400 (text "Missing chunks") bad_request_data)
    else ok cinfo

-- A call up to the directory of the account: its reply, or the session that it goes on with.
unfoldable pub begin_complete :
    {Store : Type 0} → Option UserSessionInfo → Str → Server Store → Result Reply ChunkInfo
unfolding begin_checked
begin_complete none id s = err unauthorized_error
begin_complete (some _) id s =
    if is_empty id
    then err (custom_bad_data_error (text "Invalid upload ID") bad_request_data)
    else elim (find id s.upload_sessions) [
      | none ↦ err (
          custom_bad_data_error (text "Request ID " ++ (id ++ text " does not exist"))
            invalid_header)
      | some cinfo ↦ begin_checked cinfo
    ]

module _ (gw : FileGateway) (join_path : List Str → Str) (storage : Str) where
  -- A call that nothing comes in between of is its two parts.
  begin_complete-at_once :
      (now : ℕ) (w : CompleteWorld) (user : Option UserSessionInfo) (id : Str) (s : Server gw.Store)
      → upload_file_complete gw join_path storage now w user id s
        ≡ elim (begin_complete user id s) [
          | err reply ↦ (reply, s)
          | ok cinfo ↦ complete gw join_path storage now w id cinfo s
        ]
  unfolding upload_file_complete begin_complete begin_checked complete_checked
  begin_complete-at_once now w none id s = refl
  begin_complete-at_once now w (some u) id s = ground arith

  pub begin_complete-ok :
      (u : UserSessionInfo) (id : Str) (s : Server gw.Store) (c : ChunkInfo)
      → is_empty id ≡ false
      → find id s.upload_sessions ≡ some c
      → c.total_chunks ≡ pos (length c.chunk_indexes)
      → begin_complete (some u) id s ≡ ok c
  unfolding begin_complete begin_checked
  begin_complete-ok u id s c h e t =
      ground (arith, (z_eq_iff c.total_chunks (pos (length c.chunk_indexes))).1 t)

  -- A chunk whose file is gone ends the merge at once.
  merge-gone :
      (w : CompleteWorld) (indexes : List (ℤ × Str)) (stored path : Str) (left i : ℕ) (d : Disk)
      → find (pos i) indexes ≡ some path
      → find path d.files ≡ none
      → merge w indexes stored (suc left) i d ≡ (err disk_error, d)
  unfolding merge merge_at next_round
  merge-gone w indexes stored path left i d e gone = elim (Bool-cases (w.open_fails i)) [
    | inl fails ↦ rw (e, merge_at) (rw (fails, merge_at) refl)
    | inr opens ↦ rw (e, merge_at) (rw (opens, merge_at) (rw (gone, merge_at) refl))
  ]

  -- The rest of a call where the file of the first chunk is gone.
  pub complete-gone :
      (now : ℕ) (w : CompleteWorld) (id : Str) (c : ChunkInfo) (s : Server gw.Store) (m : ℕ)
      (path : Str)
      → c.total_chunks ≡ pos (suc m)
      → find (pos 0) c.chunk_indexes ≡ some path
      → stored_path gw join_path storage now w c ≢ path
      → find path s.disk.files ≡ none
      → w.mkdir_fails ≡ false
      → w.create_fails ≡ false
      → complete gw join_path storage now w id c s ≡ (
        internal_server_error,
        record s {
          db = update_upload_status_failed gw s.db c.account_id c.file_info.file_id;
          disk = remove_file w.remove_fails (stored_path gw join_path storage now w c) (
              create
                (stored_path gw join_path storage now w c)
                (make_dir (account_dir gw join_path storage now w c) s.disk));
        },
      )
  unfolding complete merged
  complete-gone now w id c s m path t e apart gone mk cr =
      let stored = stored_path gw join_path storage now w c in
      let start = create stored (make_dir (account_dir gw join_path storage now w c) s.disk) in
      if-refused _ _ mk
      ∙ if-refused _ _ cr
      ∙ ap (merged gw join_path storage now w id c stored s) (
          ap (λ z. merge w c.chunk_indexes stored (rounds z) 0 start) t
          ∙ merge-gone w c.chunk_indexes stored path m 0 start e
              (find-insert_ne stored path [] s.disk.files apart ∙ gone))
