-- ===== src/Upload/Delivered.antt =====
-- UploadFileComplete, where every chunk is there.
use local_drive.Base.{
  ℕ, zero, suc, ◌+◌, ◌<◌, ◌≡◌, ◌≢◌, refl, sym, ap, subst, ◌∙◌, Bool, false, none, some, List, [],
  Str, ok, find, find-insert_self, find-insert_ne, find-remove_self, length, Str_eq, All, arith,
  if◌then◌else◌,
}
use local_drive.Base.Int.{pos, z_eq_iff, ℤ_eq}
use local_drive.Base.Spaces.{is_empty}
use local_drive.Sql.Placeholder.{str}
use local_drive.Files.{to_file_response, upload_completed}
use local_drive.Files.Columns.{column_upload_status}
use local_drive.Api.{UserSessionInfo, Reply, success, file}
use local_drive.Upload.{ChunkInfo, FileGateway, Server, Disk, create, make_dir, mutex_remove}
use local_drive.Upload.Complete.{
  CompleteWorld, merge, rounds, account_dir, stored_path, finished, merged, complete,
  complete_checked, upload_file_complete,
}
use local_drive.Upload.Merge.{joined, paths_from, IsReady, SameBut, merge-ok, remove_files-kept}

pub if-refused : {A : Type 0} (x y : A) {b : Bool} → b ≡ false → (if b then x else y) ≡ y
if-refused x y e = ap (λ b. (if b then x else y)) e

paths_from-apart :
    (p : ℕ → Str) (q : Str) (left i n : ℕ)
    → i + left ≡ n
    → ((j : ℕ) → j < n → p j ≢ q)
    → All (λ path. path ≢ q) (paths_from p i left)
paths_from-apart p q zero i n h apart = tt
paths_from-apart p q (suc left) i n h apart =
    (apart i (omega arith), paths_from-apart p q left (i + 1) n (omega arith) apart)

module _ (gw : FileGateway) (join_path : List Str → Str) (storage : Str) (now : ℕ)
    (w : CompleteWorld) where
  -- The reply is the completed file, the session and its mutex are gone, the status is handed to the
  -- database, the stored file holds the bytes, and the files away from it and the chunks are as before.
  pub record IsDelivered (id : Str) (c : ChunkInfo) (s : Server gw.Store) (n : ℕ) (p : ℕ → Str)
      (bytes : List ℕ) (r : Reply × Server gw.Store) : Type 0 where
    pub replied :
        r.0
        ≡ success
            (file (to_file_response (record c.file_info { upload_status = upload_completed })))
    pub closed : find id r.1.upload_sessions ≡ none
    pub unlocked : find id r.1.upload_mutex ≡ none
    pub status :
        r.1.db
        ≡ (gw.update_file now s.db c.account_id c.file_info.file_id column_upload_status
            (str upload_completed)).1
    pub stored : find (stored_path gw join_path storage now w c) r.1.disk.files ≡ some bytes
    pub others :
        (q : Str)
        → stored_path gw join_path storage now w c ≢ q
        → ((j : ℕ) → j < n → p j ≢ q)
        → find q r.1.disk.files ≡ find q s.disk.files

  module _ (id : Str) (c : ChunkInfo) (s : Server gw.Store) (n : ℕ) (p : ℕ → Str)
      (b : ℕ → List ℕ) where
    finished-IsDelivered :
        (d : Disk)
        → SameBut (stored_path gw join_path storage now w c) s.disk.files d.files
        → find (stored_path gw join_path storage now w c) d.files ≡ some (joined b 0 n)
        → ((j : ℕ) → j < n → p j ≢ stored_path gw join_path storage now w c)
        → IsDelivered id c s n p
            (joined b 0 n)
            (finished gw join_path storage now w id c (paths_from p 0 n) (record s { disk = d }))
    unfolding finished mutex_remove
    finished-IsDelivered d same e apart = record {
      replied = refl;
      closed = find-remove_self id s.upload_sessions;
      unlocked = find-remove_self id s.upload_mutex;
      status = refl;
      stored =
          remove_files-kept w.remove_fails _ (paths_from p 0 n) d
            (paths_from-apart p _ n 0 n (omega arith) apart)
          ∙ e;
      others = λ q ne away.
          remove_files-kept w.remove_fails q (paths_from p 0 n) d
            (paths_from-apart p q n 0 n (omega arith) away)
          ∙ same q ne;
    }

    complete_lem :
        (d : Disk)
        → w.mkdir_fails ≡ false
        → w.create_fails ≡ false
        → merge w c.chunk_indexes
            (stored_path gw join_path storage now w c)
            (rounds c.total_chunks)
            0
            (create
              (stored_path gw join_path storage now w c)
              (make_dir (account_dir gw join_path storage now w c) s.disk))
          ≡ (ok (paths_from p 0 n), d)
        → complete gw join_path storage now w id c s
          ≡ finished gw join_path storage now w id c (paths_from p 0 n) (record s { disk = d })
    unfolding complete
    complete_lem d m k e =
        if-refused _ _ m
        ∙ if-refused _ _ k
        ∙ ap (merged gw join_path storage now w id c (stored_path gw join_path storage now w c) s) e

    upload_file_complete_lem :
        (u : UserSessionInfo)
        → is_empty id ≡ false
        → find id s.upload_sessions ≡ some c
        → c.total_chunks ≡ pos (length c.chunk_indexes)
        → upload_file_complete gw join_path storage now w (some u) id s
          ≡ complete gw join_path storage now w id c s
    unfolding upload_file_complete
    upload_file_complete_lem u h e t =
        rw (h, upload_file_complete)
          (rw (e, upload_file_complete)
            (rw ((z_eq_iff c.total_chunks (pos (length c.chunk_indexes))).1 t, complete_checked)
              refl))

    -- The call merges all chunks and comes to its end.
    pub upload_file_complete-finished :
        (u : UserSessionInfo)
        → is_empty id ≡ false
        → find id s.upload_sessions ≡ some c
        → c.total_chunks ≡ pos n
        → length c.chunk_indexes ≡ n
        → w.mkdir_fails ≡ false
        → w.create_fails ≡ false
        → ((j : ℕ)
            → j < n
            → IsReady w c.chunk_indexes
                (stored_path gw join_path storage now w c)
                s.disk.files
                p
                b
                j)
        → (d : Disk) × (upload_file_complete gw join_path storage now w (some u) id s
            ≡ finished gw join_path storage now w id c (paths_from p 0 n) (record s { disk = d }))
          × SameBut (stored_path gw join_path storage now w c) s.disk.files d.files
          × (find (stored_path gw join_path storage now w c) d.files ≡ some (joined b 0 n))
    upload_file_complete-finished u h e t l m k ready =
        let target = stored_path gw join_path storage now w c in
        let start = create target (make_dir (account_dir gw join_path storage now w c) s.disk) in
        let (d, done, same, held) =
          merge-ok w c.chunk_indexes target s.disk.files p b n 0 n [] start (omega arith) ready
            (λ q ne. find-insert_ne target q [] s.disk.files ne)
            (find-insert_self target [] s.disk.files) in
        (
          d,
          upload_file_complete_lem u h e (t ∙ ap pos (sym l))
              ∙ complete_lem d m k
                  (ap (λ z. merge w c.chunk_indexes target (rounds z) 0 start) t ∙ done),
          same,
          held,
        )

    -- Where the user is known, the session of the ID has all of its `n` chunks recorded at paths other
    -- than the stored file's, each chunk's file holds its bytes, and the operating system does what it
    -- is asked, save perhaps for removing files: the stored file holds the bytes of the chunks joined
    -- in the order of their indexes, the reply is the completed file, the session and its mutex are
    -- gone, the database is handed the completed status, and all other files are as before.
    pub upload_file_complete-IsDelivered :
        (u : UserSessionInfo)
        → is_empty id ≡ false
        → find id s.upload_sessions ≡ some c
        → c.total_chunks ≡ pos n
        → length c.chunk_indexes ≡ n
        → w.mkdir_fails ≡ false
        → w.create_fails ≡ false
        → ((j : ℕ)
            → j < n
            → IsReady w c.chunk_indexes
                (stored_path gw join_path storage now w c)
                s.disk.files
                p
                b
                j)
        → IsDelivered id c s n p
            (joined b 0 n)
            (upload_file_complete gw join_path storage now w (some u) id s)
    upload_file_complete-IsDelivered u h e t l m k ready =
        let (d, done, same, held) = upload_file_complete-finished u h e t l m k ready in
        subst (IsDelivered id c s n p (joined b 0 n)) (sym done)
          (finished-IsDelivered d same held (λ j lt same_path. (ready j lt).apart (sym same_path)))
