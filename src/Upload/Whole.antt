-- ===== src/Upload/Whole.antt =====
-- A whole upload: every chunk, in any order, and then UploadFileComplete.
use local_drive.Base.{
  ℕ, ◌≤◌, ◌<◌, ◌≡◌, ◌≢◌, refl, sym, subst, false, none, some, List, [], ◌∷◌, Str, find, length,
  Str_eq, arith,
}
use local_drive.Base.Int.{pos, max_int, z_gt, z_incr, ℤ_eq}
use local_drive.Base.Decimal.{show, atoi-show}
use local_drive.Base.Spaces.{is_empty}
use local_drive.Api.{UserSessionInfo}
use local_drive.Upload.{ChunkInfo, FileGateway, Server}
use local_drive.Upload.Chunk.{ChunkWorld, chunk_path, upload_file_chunk}
use local_drive.Upload.Complete.{CompleteWorld, stored_path}
use local_drive.Upload.Held.{
  In, Holds, record-Holds, below, fresh-Holds, IsCompleting, IsWhole, Holds-upload_file_complete,
}
use local_drive.Upload.Recorded.{IsWorking, chunk_dir, upload_file_chunk-IsRecorded}

module _ (gw : FileGateway) (join_path : List Str → Str) (temp target id : Str) (n : ℕ)
    (b : ℕ → List ℕ) where
  -- The session of the ID, if there is one, takes its next file at this path.
  abbrev pub next_path : ChunkWorld → ChunkInfo → ℕ → Server gw.Store → Str
  next_path w c j s =
      chunk_path gw join_path temp w (chunk_dir gw join_path temp w id c s.disk) (pos j)

  -- The chunks of a file are uploaded from a server on, each once; the list holds their indexes, the
  -- last one first. The path that CreateTemp makes is the path of no file, and not the target.
  pub data Uploads (s : Server gw.Store) : List ℕ → Server gw.Store → Type 0 where
    none_yet : Uploads s [] s
    and_chunk :
        {js : List ℕ} {s' : Server gw.Store}
        → Uploads s js s'
        → (w : ChunkWorld) (u : UserSessionInfo) (j : ℕ) → j < n
        → ¬ In j js
        → length js < n
        → IsWorking w
        → ((c : ChunkInfo)
            → find id s'.upload_sessions ≡ some c
            → (find (next_path w c j s') s'.disk.files ≡ none) × (target ≢ next_path w c j s'))
        → Uploads s (j ∷ js) (upload_file_chunk gw join_path temp w (some u) id (show j) (b j) s').1

  step-Holds :
      (c : ChunkInfo) (js : List ℕ) (s : Server gw.Store) (w : ChunkWorld) (u : UserSessionInfo)
      (j : ℕ)
      → n ≤ max_int
      → Holds gw join_path temp target id n b c js s
      → j < n
      → ¬ In j js
      → length js < n
      → IsWorking w
      → ((c : ChunkInfo)
          → find id s.upload_sessions ≡ some c
          → (find (next_path w c j s) s.disk.files ≡ none) × (target ≢ next_path w c j s))
      → Holds gw join_path temp target id n b c
          (j ∷ js)
          (upload_file_chunk gw join_path temp w (some u) id (show j) (b j) s).1
  step-Holds c js s w u j m h lt new room k paths =
      let (fresh, apart) = paths h.now h.found in
      let r =
        (upload_file_chunk-IsRecorded gw join_path temp w id h.now (pos j) (b j) s u (show j) k
          h.found (atoi-show j (omega (arith, lt, m)))
          (subst (λ t. z_gt (z_incr (pos j)) t ≡ false) (sym h.total)
            (below gw join_path temp target id n b j lt m))
          (λ e.
            let full : n ≡ length js = cc (e, h.total, h.count) in omega (arith, full, room))) in
      record-Holds gw join_path temp target id n b c
        (record h.now { dir = chunk_dir gw join_path temp w id h.now s.disk }) js s _ j
        (next_path w h.now j s) h new h.total h.account h.entry refl r.session r.held r.others fresh
        apart

  Uploads-Holds :
      (c : ChunkInfo) (s : Server gw.Store) {js : List ℕ} {s' : Server gw.Store}
      → n ≤ max_int
      → Holds gw join_path temp target id n b c [] s
      → Uploads s js s'
      → Holds gw join_path temp target id n b c js s'
  Uploads-Holds c s m h none_yet = h
  Uploads-Holds c s m h (and_chunk {js} {s'} before w u j lt new room k paths) =
      step-Holds c js s' w u j m (Uploads-Holds c s m h before) lt new room k paths

  -- A new session of `n` chunks, an int, is open, for an ID that is not empty. Once each of its chunks has been
  -- uploaded, in any order, where the operating system does what it is asked and CreateTemp makes new
  -- files away from the target, completing the session succeeds: the reply is the completed file, the
  -- session is closed, and the target holds the chunks joined in the order of their indexes.
  pub Uploads-upload_file_complete :
      (storage : Str) (now : ℕ) (w : CompleteWorld) (u : UserSessionInfo) (c : ChunkInfo)
      (s s' : Server gw.Store) (js : List ℕ)
      → is_empty id ≡ false
      → n ≤ max_int
      → find id s.upload_sessions ≡ some c
      → c.total_chunks ≡ pos n
      → c.chunk_indexes ≡ []
      → target ≡ stored_path gw join_path storage now w c
      → Uploads s js s'
      → length js ≡ n
      → ((j : ℕ) → j < n → In j js)
      → IsCompleting gw join_path temp target id n b w
      → IsWhole gw join_path temp target id n b storage now w u c s'
  Uploads-upload_file_complete storage now w u c s s' js filled m e t empty aim ups len every k =
      Holds-upload_file_complete gw join_path temp target id n b storage now w u c s' js
        (Uploads-Holds c s m (fresh-Holds gw join_path temp target id n b c s e t empty) ups) filled
        aim len every k
