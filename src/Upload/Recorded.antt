-- ===== src/Upload/Recorded.antt =====
-- UploadFileChunk, where the chunk is taken.
use local_drive.Base.{
  ℕ, ◌≡◌, ◌≢◌, refl, sym, ap, subst, ◌∙◌, Bool, true, false, Option, none, some, List, [], ◌∷◌,
  ◌++◌, Str, text, find, insert, length, find-insert_self, find-insert_ne, Str_eq, if◌then◌else◌,
  Bool-cases, if-false, if_both, inl, inr,
}
use local_drive.Base.Int.{ℤ, pos, z_eq, z_eq_iff, z_gt, z_incr, ℤ_eq}
use local_drive.Base.Decimal.{atoi}
use local_drive.Base.Spaces.{is_empty}
use local_drive.Api.{UserSessionInfo, Reply, success, flag}
use local_drive.Upload.{
  find-mutex_get_self, find-mutex_get_ne, ChunkInfo, FileGateway, Server, Disk, create, append_to,
  mutex_get,
}
use local_drive.Upload.Chunk.{
  ChunkWorld, chunk_path, recorded, copied, written, with_new_dir, locked, guarded, indexed,
  exists_dir, upload_file_chunk,
}

-- An operating system that does what it is asked.
pub record IsWorking (w : ChunkWorld) : Type 0 where
  pub stat : w.stat_fails ≡ false
  pub mkdir : w.mkdir_fails ≡ false
  pub create : w.create_fails ≡ false
  pub copy : w.copy_fails ≡ none
  pub response : w.response_fails ≡ false

abbrev found {ℓ} : {V : Type ℓ} → Option V → Bool
found none = false
found (some _) = true

elim-none :
    {B : Type 0} (x : B) (f : ℕ → B) (o : Option ℕ)
    → o ≡ none
    → (elim o [ none ↦ x | some n ↦ f n ]) ≡ x
elim-none x f o e = ap (λ o. (elim o [ none ↦ x | some n ↦ f n ])) e

module _ (gw : FileGateway) (join_path : List Str → Str) (temp : Str) (w : ChunkWorld) where
  -- The directory of a session on a disk, and a new one where it has none.
  abbrev pub made_dir : Str → Str
  made_dir id = join_path (temp ∷ text "lcschunks" ∷ id ∷ [])

  abbrev pub chunk_dir : Str → ChunkInfo → Disk → Str
  chunk_dir id c d =
      if is_empty c.dir then made_dir id else if exists_dir c.dir d then c.dir else made_dir id

  module _ (id : Str) (c : ChunkInfo) (index : ℤ) (body : List ℕ) (s : Server gw.Store) where
    -- The reply is a success; the session has the directory, which is on the disk, and the chunk's path
    -- in it, whose file holds the body. The mutex of the ID is in its map. The other sessions, mutexes,
    -- files and directories and the database are as before.
    pub record IsRecorded (dir : Str) (r : Reply × Server gw.Store) : Type 0 where
      pub replied : r.0 ≡ success (flag true)
      pub session :
          find id r.1.upload_sessions
          ≡ some (record c {
            dir = dir;
            chunk_indexes = insert index (chunk_path gw join_path temp w dir index) c.chunk_indexes;
          })
      pub held : find (chunk_path gw join_path temp w dir index) r.1.disk.files ≡ some body
      pub others :
          (q : Str)
          → chunk_path gw join_path temp w dir index ≢ q
          → find q r.1.disk.files ≡ find q s.disk.files
      pub sessions : (j : Str) → id ≢ j → find j r.1.upload_sessions ≡ find j s.upload_sessions
      pub mutex : find id r.1.upload_mutex ≡ some tt
      pub mutexes : (j : Str) → id ≢ j → find j r.1.upload_mutex ≡ find j s.upload_mutex
      pub made : exists_dir dir r.1.disk ≡ true
      pub dirs : (q : Str) → dir ≢ q → find q r.1.disk.dirs ≡ find q s.disk.dirs
      pub db : r.1.db ≡ s.db

    -- What the steps before the file is created leave, with this directory.
    record IsPrepared (dir : Str) (s' : Server gw.Store) : Type 0 where
      pub files : s'.disk.files ≡ s.disk.files
      pub sessions : (j : Str) → id ≢ j → find j s'.upload_sessions ≡ find j s.upload_sessions
      pub mutex : s'.upload_mutex ≡ mutex_get id s.upload_mutex
      pub made : exists_dir dir s'.disk ≡ true
      pub dirs : (q : Str) → dir ≢ q → find q s'.disk.dirs ≡ find q s.disk.dirs
      pub db : s'.db ≡ s.db

    recorded-IsRecorded :
        (dir : Str) (s' : Server gw.Store)
        → IsPrepared dir s'
        → IsRecorded dir (
          success (flag true),
          recorded gw join_path temp w id
              (record c { dir = dir })
              index
              (chunk_path gw join_path temp w dir index)
              (record s' {
                disk =
                    append_to
                      (chunk_path gw join_path temp w dir index)
                      body
                      (create (chunk_path gw join_path temp w dir index) s'.disk);
              }),
        )
    unfolding recorded
    recorded-IsRecorded dir s' p =
        let path = chunk_path gw join_path temp w dir index in
        record {
          replied = refl;
          session = find-insert_self id _ s'.upload_sessions;
          held =
              find-insert_self path _ _
              ∙ ap (λ o. some ((elim o [ none ↦ [] | some bytes ↦ bytes ]) ++ body))
                  (find-insert_self path [] s'.disk.files);
          others = λ q ne.
              find-insert_ne path q _ (insert path [] s'.disk.files) ne
              ∙ find-insert_ne path q [] s'.disk.files ne
              ∙ ap (λ (f : List (Str × List ℕ)). find q f) p.files;
          sessions = λ j ne. find-insert_ne id j _ s'.upload_sessions ne ∙ p.sessions j ne;
          mutex = ap (find id) p.mutex ∙ find-mutex_get_self id s.upload_mutex;
          mutexes = λ j ne. ap (find j) p.mutex ∙ find-mutex_get_ne id j s.upload_mutex ne;
          made = p.made;
          dirs = p.dirs;
          db = p.db;
        }

    copied_lem :
        (c' : ChunkInfo) (path : Str) (s' : Server gw.Store)
        → IsWorking w
        → copied gw join_path temp w id c' index body path s' ≡ (
          success (flag true),
          recorded gw join_path temp w id c' index path
              (record s' { disk = append_to path body s'.disk }),
        )
    unfolding copied
    copied_lem c' path s' k =
        elim-none _ _ w.copy_fails k.copy
        ∙ ap
            (λ r. (
              r,
              recorded gw join_path temp w id c' index path
                  (record s' { disk = append_to path body s'.disk }),
            ))
            (if-false _ _ k.response)

    written-IsRecorded :
        (dir : Str) (s' : Server gw.Store)
        → IsWorking w
        → IsPrepared dir s'
        → IsRecorded dir (written gw join_path temp w id (record c { dir = dir }) index body s')
    unfolding written
    written-IsRecorded dir s' k p =
        subst (IsRecorded dir)
          (sym (if-false _ _ k.create ∙ copied_lem (record c { dir = dir }) _ _ k))
          (recorded-IsRecorded dir s' p)

    abbrev with_mutex : Server gw.Store
    with_mutex = record s { upload_mutex = mutex_get id s.upload_mutex }

    with_new_dir-IsRecorded :
        IsWorking w
        → IsRecorded (made_dir id) (with_new_dir gw join_path temp w id c index body with_mutex)
    unfolding with_new_dir
    with_new_dir-IsRecorded k =
        let dir = made_dir id in
        subst (IsRecorded dir) (sym (if-false _ _ k.mkdir)) (
          written-IsRecorded _ _ k (record {
            files = refl;
            sessions = λ j ne. find-insert_ne id j (record c { dir = dir }) s.upload_sessions ne;
            mutex = refl;
            made = ap found (find-insert_self dir tt s.disk.dirs);
            dirs = λ q ne. find-insert_ne dir q tt s.disk.dirs ne;
            db = refl;
          }))

    pub locked-IsRecorded :
        IsWorking w
        → IsRecorded (chunk_dir id c s.disk) (locked gw join_path temp w id c index body with_mutex)
    unfolding locked
    locked-IsRecorded k = subst (IsRecorded (chunk_dir id c s.disk)) (sym (if-false _ _ k.stat)) (
        if_both IsRecorded (is_empty c.dir) _ _ _ _ (λ _. with_new_dir-IsRecorded k)
          (λ _.
            if_both IsRecorded (exists_dir c.dir s.disk) _ _ _ _
              (λ there. written-IsRecorded c.dir with_mutex k (record {
                files = refl;
                sessions = λ j ne. refl;
                mutex = refl;
                made = there;
                dirs = λ q ne. refl;
                db = refl;
              }))
              (λ _. with_new_dir-IsRecorded k)))

    guarded-IsRecorded :
        IsWorking w
        → z_gt (z_incr index) c.total_chunks ≡ false
        → c.total_chunks ≢ pos (length c.chunk_indexes)
        → IsRecorded (chunk_dir id c s.disk) (guarded gw join_path temp w id c index body s)
    unfolding guarded
    guarded-IsRecorded k below room =
        let differs : z_eq c.total_chunks (pos (length c.chunk_indexes)) ≡ false =
          elim (Bool-cases (z_eq c.total_chunks (pos (length c.chunk_indexes)))) [
            | inl same ↦
                absurd (room ((z_eq_iff c.total_chunks (pos (length c.chunk_indexes))).0 same))
            | inr differs ↦ differs
          ] in
        subst (IsRecorded (chunk_dir id c s.disk)) (sym (if-false _ _ below ∙ if-false _ _ differs))
          (locked-IsRecorded k)

    indexed-IsRecorded :
        (value : Str)
        → IsWorking w
        → atoi value ≡ some index
        → z_gt (z_incr index) c.total_chunks ≡ false
        → c.total_chunks ≢ pos (length c.chunk_indexes)
        → IsRecorded (chunk_dir id c s.disk) (indexed gw join_path temp w id c value body s)
    unfolding indexed
    indexed-IsRecorded value k parsed below room =
        rw (parsed, indexed) (guarded-IsRecorded k below room)

    -- Where the user is known, the ID has a session that does not hold its number of chunks, the guard lets
    -- the index pass, which is a number, and the operating system does what it is asked: the chunk is
    -- taken. The reply is a success. The session has its directory, or the one of its ID where it has
    -- none on the disk, and in it, under the index, the path that CreateTemp makes; the rest of the
    -- session is as it was. The file of that path holds the body, the directory is on the disk and the
    -- mutex in its map. All other sessions, mutexes, files and directories and the database are as before.
    pub upload_file_chunk-IsRecorded :
        (u : UserSessionInfo) (value : Str)
        → IsWorking w
        → find id s.upload_sessions ≡ some c
        → atoi value ≡ some index
        → z_gt (z_incr index) c.total_chunks ≡ false
        → c.total_chunks ≢ pos (length c.chunk_indexes)
        → IsRecorded
            (chunk_dir id c s.disk)
            (upload_file_chunk gw join_path temp w (some u) id value body s)
    unfolding upload_file_chunk
    upload_file_chunk-IsRecorded u value k e parsed below room =
        rw (e, upload_file_chunk) (indexed-IsRecorded value k parsed below room)
