-- ===== src/Handlers/RoundTrip.antt =====
-- A file that was completed, and then downloaded.
use local_drive.Base.{
  ℕ, ◌<◌, ◌≤◌, ◌≡◌, refl, sym, ap, ◌∙◌, false, none, some, List, [], ◌∷◌, ◌++◌, Str, text, ok, find,
  length, Str_eq, if◌then◌else◌, str_eq,
}
use local_drive.Base.Int.{pos, max_int}
use local_drive.Base.Spaces.{is_empty}
use local_drive.Files.{File, file_type_file, file_type_dir}
use local_drive.Gateway.Files.{get_file}
use local_drive.Api.{UserSessionInfo, Reply, stream, bad_data_error}
use local_drive.Upload.{ChunkInfo, Server, Disk}
use local_drive.Upload.Complete.{CompleteWorld, stored_path, account_dir, upload_file_complete}
use local_drive.Upload.Merge.{joined}
use local_drive.Upload.Held.{In, IsCompleting}
use local_drive.Upload.Whole.{Uploads, Uploads-upload_file_complete}
use local_drive.Handlers.{Environment, file_gateway}
use local_drive.Handlers.Reads.{DownloadWorld, headers, streamed, downloaded, download_file}

module _ (env : Environment) where
  open env use {db, join_path, storage, temp}

  -- A file of the disk that is found, opened and copied.
  streamed-all :
      (w : DownloadWorld) (f : File) (path : Str) (bytes : List ℕ) (d : Disk)
      → w.open_fails ≡ false
      → w.copy_fails ≡ none
      → find path d.files ≡ some bytes
      → streamed env w f (if w.open_fails then none else find path d.files)
        ≡ stream (headers env f) bytes false
  unfolding streamed
  streamed-all w f path bytes d o k e = rw (o, e, streamed) (rw k refl)

  downloaded-all :
      (w : DownloadWorld) (f : File) (bytes : List ℕ) (d : Disk)
      → w.open_fails ≡ false
      → w.copy_fails ≡ none
      → f.type ≡ file_type_file
      → find (join_path (storage ∷ f.path ∷ [])) d.files ≡ some bytes
      → downloaded env w d (ok (some f)) ≡ stream (headers env f) bytes false
  unfolding downloaded text str_eq
  downloaded-all w f bytes d o k t e =
      ap
        (λ type.
          if str_eq type file_type_dir
          then bad_data_error
          else streamed env w f
              (if w.open_fails then none else find (join_path (storage ∷ f.path ∷ [])) d.files))
        t
      ∙ streamed-all w f (join_path (storage ∷ f.path ∷ [])) bytes d o k e

  download_file-found :
      (w : DownloadWorld) (user : UserSessionInfo) (file_id : Str) (f : File) (s : Server db.Store)
      → is_empty file_id ≡ false
      → get_file db s.db user.account_id file_id ≡ ok (some f)
      → download_file env w (some user) file_id s ≡ downloaded env w s.disk (ok (some f))
  unfolding download_file
  download_file-found w user file_id f s filled e = rw (filled, e) refl

  -- A new session of `n` chunks, an int, is open, for an ID that is not empty; each of its chunks has
  -- been uploaded, in any order, the operating system doing what it is asked and CreateTemp making new
  -- files away from the target; and the session has been completed. The database then answers the
  -- downloading user with one file, no folder, under the session's file ID, which is not empty, with
  -- the path that is written for such a file, and filepath.Join does not care whether that path is
  -- joined at once or in two steps. Downloading the file, where it can be opened and copied, streams,
  -- after its headers, the chunks joined in the order of their indexes, to the end.
  pub Uploads-download_file :
      (target id : Str) (n : ℕ) (b : ℕ → List ℕ) (now : ℕ) (w : CompleteWorld) (w' : DownloadWorld)
      (u v : UserSessionInfo) (c : ChunkInfo) (s s' s'' : Server db.Store) (js : List ℕ)
      (reply : Reply) (f : File)
      → is_empty id ≡ false
      → n ≤ max_int
      → find id s.upload_sessions ≡ some c
      → c.total_chunks ≡ pos n
      → c.chunk_indexes ≡ []
      → target ≡ stored_path (file_gateway db) join_path storage now w c
      → Uploads (file_gateway db) join_path temp target id n b s js s'
      → length js ≡ n
      → ((j : ℕ) → j < n → In j js)
      → IsCompleting (file_gateway db) join_path temp target id n b w
      → upload_file_complete (file_gateway db) join_path storage now w (some u) id s' ≡ (reply, s'')
      → is_empty c.file_info.file_id ≡ false
      → get_file db s''.db v.account_id c.file_info.file_id ≡ ok (some f)
      → f.path ≡ c.account_id ++ (text "/" ++ c.file_info.file_id)
      → f.type ≡ file_type_file
      → join_path (storage ∷ (c.account_id ++ (text "/" ++ c.file_info.file_id)) ∷ [])
        ≡ join_path (join_path (storage ∷ c.account_id ∷ []) ∷ c.file_info.file_id ∷ [])
      → w'.open_fails ≡ false
      → w'.copy_fails ≡ none
      → download_file env w' (some v) c.file_info.file_id s''
        ≡ stream (headers env f) (joined b 0 n) false
  unfolding stored_path account_dir
  Uploads-download_file target id n b now w w' u v c s s' s'' js reply f filled m e t empty aim ups
        len every k done named found path type joins o k' =
      let (replied, closed, held) =
        Uploads-upload_file_complete (file_gateway db) join_path temp target id n b storage now w u
          c s s' js filled m e t empty aim ups len every k in
      let same : join_path (storage ∷ f.path ∷ []) ≡ target =
        ap (λ (p : Str). join_path (storage ∷ p ∷ [])) path ∙ joins ∙ sym aim in
      download_file-found w' v c.file_info.file_id f s'' named found
      ∙ downloaded-all w' f (joined b 0 n) s''.disk o k' type (
          ap (λ (p : Str). find p s''.disk.files) same
          ∙ ap (λ (r : Reply × Server db.Store). find target r.1.disk.files) (sym done)
          ∙ held)
