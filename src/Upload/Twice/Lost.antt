-- ===== src/Upload/Twice/Lost.antt =====
-- What two calls that complete one upload come to, where both have counted its chunks before the first
-- goes on.
use local_drive.Base.{
  ℕ, suc, ◌<◌, ◌≡◌, ◌≢◌, refl, sym, ap, ◌∙◌, false, none, some, List, Str, ok, find, length, Str_eq,
  arith,
}
use local_drive.Base.Int.{pos, ℤ_eq}
use local_drive.Base.Spaces.{is_empty}
use local_drive.Files.{to_file_response, upload_completed}
use local_drive.Api.{UserSessionInfo, success, file, internal_server_error}
use local_drive.Upload.{
  ChunkInfo, FileGateway, Server, create, make_dir, remove_file, remove_files,
  update_upload_status_failed,
}
use local_drive.Upload.Complete.{
  CompleteWorld, account_dir, stored_path, finished, complete, upload_file_complete,
}
use local_drive.Upload.Merge.{IsReady, paths_from, remove_file-gone, remove_files-none}
use local_drive.Upload.Delivered.{upload_file_complete-finished}
use local_drive.Upload.Twice.{begin_complete, begin_complete-ok, complete-gone}

module _ (gw : FileGateway) (join_path : List Str → Str) (storage : Str) where
  -- After a call that came to its end, the file of the first chunk is gone.
  finished-gone :
      (now : ℕ) (w : CompleteWorld) (id : Str) (c : ChunkInfo) (s : Server gw.Store) (m : ℕ)
      (p : ℕ → Str)
      → w.remove_fails (p 0) ≡ false
      → find
          (p 0)
          (finished gw join_path storage now w id c (paths_from p 0 (suc m)) s).1.disk.files
        ≡ none
  unfolding finished remove_files
  finished-gone now w id c s m p h =
      remove_files-none w.remove_fails (p 0) (paths_from p 1 m)
        (remove_file w.remove_fails (p 0) s.disk) (remove_file-gone w.remove_fails (p 0) s.disk h)

  finished-replied :
      (now : ℕ) (w : CompleteWorld) (id : Str) (c : ChunkInfo) (s : Server gw.Store)
      (paths : List Str)
      → (finished gw join_path storage now w id c paths s).0
        ≡ success
            (file (to_file_response (record c.file_info { upload_status = upload_completed })))
  unfolding finished
  finished-replied now w id c s paths = refl

  -- What two calls come to that both count the chunks before the first goes on. The first succeeds;
  -- the second, which goes on after it, answers with the internal error, leaves no stored file, and
  -- has the database mark the file as failed.
  abbrev pub IsLost :
      (now later : ℕ) (w late : CompleteWorld) (u v : UserSessionInfo)
      → Str
      → ChunkInfo
      → Server gw.Store
      → Type 0
  IsLost now later w late u v id c s =
      let first = upload_file_complete gw join_path storage now w (some u) id s in
      let second = complete gw join_path storage later late id c first.1 in
      (begin_complete (some v) id s ≡ ok c)
      × (first.0
          ≡ success
              (file (to_file_response (record c.file_info { upload_status = upload_completed }))))
      × (second.0 ≡ internal_server_error)
      × (find (stored_path gw join_path storage later late c) second.1.disk.files ≡ none)
      × (second.1.db ≡ update_upload_status_failed gw first.1.db c.account_id c.file_info.file_id)

  second-lost :
      (later : ℕ) (late : CompleteWorld) (id : Str) (c : ChunkInfo) (s : Server gw.Store) (m : ℕ)
      (path : Str)
      → c.total_chunks ≡ pos (suc m)
      → find (pos 0) c.chunk_indexes ≡ some path
      → stored_path gw join_path storage later late c ≢ path
      → find path s.disk.files ≡ none
      → late.mkdir_fails ≡ false
      → late.create_fails ≡ false
      → late.remove_fails (stored_path gw join_path storage later late c) ≡ false
      → let second = complete gw join_path storage later late id c s in
        (second.0 ≡ internal_server_error)
        × (find (stored_path gw join_path storage later late c) second.1.disk.files ≡ none)
        × (second.1.db ≡ update_upload_status_failed gw s.db c.account_id c.file_info.file_id)
  second-lost later late id c s m path t e apart gone mk cr rm =
      let same = complete-gone gw join_path storage later late id c s m path t e apart gone mk cr in
      let stored = stored_path gw join_path storage later late c in
      (
        ap (λ r. r.0) same,
        ap (λ r. find stored r.1.disk.files) same
            ∙ remove_file-gone late.remove_fails stored
                (create stored (make_dir (account_dir gw join_path storage later late c) s.disk))
                rm,
        ap (λ r. r.1.db) same,
      )

  -- A session has all of its one or more chunks, each recorded at a path other than the stored file's,
  -- with its file and its bytes; the ID is not empty; and the operating system does what the calls ask
  -- of it, but may refuse to remove other files than the first chunk's and the stored one. Two calls
  -- complete the session, and both count its chunks before the first goes on. The first succeeds, and
  -- the second, which goes on after it, answers with the internal error, leaves no stored file, and has
  -- the database mark the file as failed.
  pub upload_file_complete-IsLost :
      (now later : ℕ) (w late : CompleteWorld) (u v : UserSessionInfo) (id : Str) (c : ChunkInfo)
      (s : Server gw.Store) (m : ℕ) (p : ℕ → Str) (b : ℕ → List ℕ)
      → is_empty id ≡ false
      → find id s.upload_sessions ≡ some c
      → c.total_chunks ≡ pos (suc m)
      → length c.chunk_indexes ≡ suc m
      → w.mkdir_fails ≡ false
      → w.create_fails ≡ false
      → ((j : ℕ)
          → j < suc m
          → IsReady w c.chunk_indexes (stored_path gw join_path storage now w c) s.disk.files p b j)
      → w.remove_fails (p 0) ≡ false
      → late.mkdir_fails ≡ false
      → late.create_fails ≡ false
      → late.remove_fails (stored_path gw join_path storage later late c) ≡ false
      → IsLost now later w late u v id c s
  unfolding stored_path account_dir
  upload_file_complete-IsLost now later w late u v id c s m p b h e t l mk cr ready rm mk' cr' rm' =
      let n = suc m in
      let (d, done, same, held) =
        upload_file_complete-finished gw join_path storage now w id c s n p b u h e t l mk cr
          ready in
      let r = ready 0 (omega arith) in
      let gone =
        ap (λ out. find (p 0) out.1.disk.files) done
        ∙ finished-gone now w id c (record s { disk = d }) m p rm in
      let lost =
        second-lost later late id c
          (upload_file_complete gw join_path storage now w (some u) id s).1 m (p 0) t r.recorded
          r.apart gone mk' cr' rm' in
      (
        begin_complete-ok gw join_path storage v id s c h e (t ∙ ap pos (sym l)),
        ap (λ out. out.0) done
            ∙ finished-replied now w id c (record s { disk = d }) (paths_from p 0 n),
        lost.0,
        lost.1,
        lost.2,
      )
