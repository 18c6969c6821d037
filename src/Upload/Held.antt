-- ===== src/Upload/Held.antt =====
-- A session that holds some of its chunks, and what completing it does once it holds all of them.
use local_drive.Base.{
  ℕ, ◌≤◌, ◌<◌, ◌≡◌, ◌≢◌, refl, sym, ap, subst, ◌∙◌, ◌⊎◌, inl, inr, false, Option, none, some, List,
  [], ◌∷◌, Str, find, insert, length, length-insert, find-insert_self, find-insert_ne, Str_eq,
  arith,
}
use local_drive.Base.Int.{ℤ, pos, max_int, z_gt, z_incr, ℤ_eq}
use local_drive.Base.Spaces.{is_empty}
use local_drive.Files.{File, to_file_response, upload_completed}
use local_drive.Api.{UserSessionInfo, success, file}
use local_drive.Upload.{ChunkInfo, FileGateway, Server}
use local_drive.Upload.Complete.{CompleteWorld, account_dir, stored_path, upload_file_complete}
use local_drive.Upload.Merge.{joined, IsReady}
use local_drive.Upload.Delivered.{upload_file_complete-IsDelivered}

abbrev pub In : ℕ → List ℕ → Type 0
In j [] = ⊥
In j (k ∷ ks) = (k ≡ j) ⊎ In j ks

module _ (gw : FileGateway) (join_path : List Str → Str) (temp target id : Str) (n : ℕ)
    (b : ℕ → List ℕ) where
  -- Chunk `j` is recorded, at a path whose file holds its bytes.
  abbrev pub HasChunk : ChunkInfo → Server gw.Store → ℕ → Type 0
  HasChunk c s j =
      (p : Str) × (find (pos j) c.chunk_indexes ≡ some p)
      × (target ≢ p)
      × (find p s.disk.files ≡ some (b j))

  -- The session after some chunks.
  pub record Holds (c : ChunkInfo) (js : List ℕ) (s : Server gw.Store) : Type 0 where
    pub now : ChunkInfo
    pub found : find id s.upload_sessions ≡ some now
    pub total : now.total_chunks ≡ pos n
    pub account : now.account_id ≡ c.account_id
    pub entry : now.file_info ≡ c.file_info
    pub count : length now.chunk_indexes ≡ length js
    pub chunks : (j : ℕ) → In j js → HasChunk now s j
    pub free : (j : ℕ) → ¬ In j js → find (pos j) now.chunk_indexes ≡ none

  pub below : (j : ℕ) → j < n → n ≤ max_int → z_gt (z_incr (pos j)) (pos n) ≡ false
  below j h m = ground arith

  -- A chunk that is recorded over a session with the chunks of the open one.
  pub record-Holds :
      (c c' : ChunkInfo) (js : List ℕ) (s s' : Server gw.Store) (j : ℕ) (path : Str)
      → (h : Holds c js s) → ¬ In j js
      → c'.total_chunks ≡ pos n
      → c'.account_id ≡ c.account_id
      → c'.file_info ≡ c.file_info
      → c'.chunk_indexes ≡ h.now.chunk_indexes
      → find id s'.upload_sessions
        ≡ some (record c' { chunk_indexes = insert (pos j) path c'.chunk_indexes })
      → find path s'.disk.files ≡ some (b j)
      → ((q : Str) → path ≢ q → find q s'.disk.files ≡ find q s.disk.files)
      → find path s.disk.files ≡ none
      → target ≢ path
      → Holds c (j ∷ js) s'
  record-Holds c c' js s s' j path h new total account entry same found held others fresh apart =
      let m = h.now.chunk_indexes in
      record {
        now = record c' { chunk_indexes = insert (pos j) path m };
        found =
            found
            ∙ ap
                (λ (x : List (ℤ × Str)). some (record c' { chunk_indexes = insert (pos j) path x }))
                same;
        total = total;
        account = account;
        entry = entry;
        count = length-insert (pos j) path m (h.free j new) ∙ omega (arith, h.count);
        chunks = λ i there. elim there [
          | inl e ↦
              subst
                (λ i.
                  (p : Str) × (find (pos i) (insert (pos j) path m) ≡ some p)
                  × (target ≢ p)
                  × (find p s'.disk.files ≡ some (b i)))
                e (path, find-insert_self (pos j) path m, apart, held)
          | inr before ↦
              let (p, at, away, bytes) = h.chunks i before in
              (
                p,
                find-insert_ne (pos j) (pos i) path m (other i before) ∙ at,
                away,
                others p (λ e. cc (e, fresh, bytes)) ∙ bytes,
              )
        ];
        free = λ i away.
            find-insert_ne (pos j) (pos i) path m (λ e. away (inl (cc)))
            ∙ h.free i (λ there. away (inr there));
      }
    where
      other : (i : ℕ) → In i js → pos j ≢ pos i
      other i there e = let same : i ≡ j = cc in new (subst (λ k. In k js) same there)

  pub fresh-Holds :
      (c : ChunkInfo) (s : Server gw.Store)
      → find id s.upload_sessions ≡ some c
      → c.total_chunks ≡ pos n
      → c.chunk_indexes ≡ []
      → Holds c [] s
  unfolding find
  fresh-Holds c s e t empty = record {
    now = c;
    found = e;
    total = t;
    account = refl;
    entry = refl;
    count = ap length empty;
    chunks = λ j h. absurd h;
    free = λ j h. ap (λ (m : List (ℤ × Str)). find (pos j) m) empty;
  }

  -- Where the directories and files can be made, opened, copied.
  pub record IsCompleting (w : CompleteWorld) : Type 0 where
    pub mkdir : w.mkdir_fails ≡ false
    pub create : w.create_fails ≡ false
    pub opens : (j : ℕ) → w.open_fails j ≡ false
    pub copies : (j : ℕ) → w.copy_fails j ≡ none

  path_at : Option Str → Str
  path_at none = []
  path_at (some p) = p

  HasChunk-IsReady :
      (w : CompleteWorld) (c : ChunkInfo) (s : Server gw.Store) (j : ℕ)
      → IsCompleting w
      → HasChunk c s j
      → IsReady w c.chunk_indexes target s.disk.files
          (λ i. path_at (find (pos i) c.chunk_indexes))
          b
          j
  unfolding path_at
  HasChunk-IsReady w c s j k (p, at, away, held) =
      let same : path_at (find (pos j) c.chunk_indexes) ≡ p = ap path_at at in
      record {
        recorded = at ∙ ap some (sym same);
        apart = λ e. away (e ∙ same);
        held = ap (λ q. find q s.disk.files) same ∙ held;
        opens = k.opens j;
        copies = k.copies j;
      }

  stored_path_lem :
      (storage : Str) (now : ℕ) (w : CompleteWorld) (c c' : ChunkInfo)
      → c'.account_id ≡ c.account_id
      → c'.file_info ≡ c.file_info
      → stored_path gw join_path storage now w c' ≡ stored_path gw join_path storage now w c
  unfolding stored_path account_dir
  stored_path_lem storage now w c c' a f =
      ap (λ (x : Str). join_path (join_path (storage ∷ x ∷ []) ∷ c'.file_info.file_id ∷ [])) a
      ∙ ap (λ (x : File). join_path (join_path (storage ∷ c.account_id ∷ []) ∷ x.file_id ∷ [])) f

  -- Completing answers with the completed file and closes the session, and the target holds the chunks
  -- joined in the order of their indexes.
  abbrev pub IsWhole :
      Str → ℕ → CompleteWorld → UserSessionInfo → ChunkInfo → Server gw.Store → Type 0
  IsWhole storage now w u c s' =
      let r = upload_file_complete gw join_path storage now w (some u) id s' in
      (r.0
        ≡ success
            (file (to_file_response (record c.file_info { upload_status = upload_completed }))))
      × (find id r.1.upload_sessions ≡ none)
      × (find target r.1.disk.files ≡ some (joined b 0 n))

  -- With every chunk.
  pub Holds-upload_file_complete :
      (storage : Str) (now : ℕ) (w : CompleteWorld) (u : UserSessionInfo) (c : ChunkInfo)
      (s' : Server gw.Store) (js : List ℕ)
      → Holds c js s'
      → is_empty id ≡ false
      → target ≡ stored_path gw join_path storage now w c
      → length js ≡ n
      → ((j : ℕ) → j < n → In j js)
      → IsCompleting w
      → IsWhole storage now w u c s'
  Holds-upload_file_complete storage now w u c s' js h filled aim len every k =
      let same = aim ∙ sym (stored_path_lem storage now w c h.now h.account h.entry) in
      let d =
        upload_file_complete-IsDelivered gw join_path storage now w id h.now s' n
          (λ i. path_at (find (pos i) h.now.chunk_indexes)) b u filled h.found h.total
          (h.count ∙ len) k.mkdir k.create
          (λ j lt.
            subst
              (λ q.
                IsReady w h.now.chunk_indexes q s'.disk.files
                  (λ i. path_at (find (pos i) h.now.chunk_indexes)) b j)
              same (HasChunk-IsReady w h.now s' j k (h.chunks j (every j lt)))) in
      (
        d.replied
            ∙ ap
                (λ (f : File).
                  success (file (to_file_response (record f { upload_status = upload_completed }))))
                h.entry,
        d.closed,
        ap
              (λ q.
                find q
                  (upload_file_complete gw join_path storage now w (some u) id s').1.disk.files)
              same
            ∙ d.stored,
      )
