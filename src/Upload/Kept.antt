-- ===== src/Upload/Kept.antt =====
-- What the steps of an upload's chunk calls keep of a session that holds some of its chunks.
use mathlib.Core.Option.{some-injective}
use local_drive.Base.{
  ℕ, ◌≡◌, ◌≢◌, refl, sym, ap, ◌∙◌, ◌⊎◌, inl, inr, Bool-cases, true, false, none, some, List, [],
  ◌++◌, Str, ok, err, Result, find, insert, find-insert_self, find-insert_ne, find-remove_ne,
  if_cases, nat_eq, arith, length, length-insert_old, Str_eq, subst,
}
use local_drive.Base.Int.{ℤ, pos, ℤ_eq}
use local_drive.Base.Spaces.{is_empty}
use local_drive.Api.{Reply, internal_server_error}
use local_drive.Upload.{ChunkInfo, FileGateway, Server}
use local_drive.Upload.Chunk.{ChunkWorld, chunk_path, written, copied, recorded, exists_dir}
use local_drive.Upload.Held.{In, Holds}
use local_drive.Upload.Overlap.{shared, enter_new_dir, enter_chunk, leave_chunk}

module _ (gw : FileGateway) (join_path : List Str → Str) (temp target id : Str) (n : ℕ)
    (b : ℕ → List ℕ) where
  -- A copy of the session differs from it in its directory and its chunks alone.
  abbrev pub AgreesWith : ChunkInfo → ChunkInfo → Type 0
  AgreesWith c copy =
      (copy.total_chunks ≡ pos n)
      × (copy.account_id ≡ c.account_id)
      × (copy.file_info ≡ c.file_info)

  -- The session may change in its directory, and files may be added.
  pub moved-Holds :
      (c now : ChunkInfo) (js : List ℕ) (s s' : Server gw.Store)
      → (h : Holds gw join_path temp target id n b c js s) → AgreesWith c now
      → now.chunk_indexes ≡ h.now.chunk_indexes
      → find id s'.upload_sessions ≡ some now
      → ((q : Str) (bytes : List ℕ)
          → find q s.disk.files ≡ some bytes
          → find q s'.disk.files ≡ some bytes)
      → Holds gw join_path temp target id n b c js s'
  moved-Holds c now js s s' h (total, account, entry) same found kept = record {
    now = now;
    found = found;
    total = total;
    account = account;
    entry = entry;
    count = ap length same ∙ h.count;
    chunks = λ j there.
        let (p, at, away, held) = h.chunks j there in
        (p, ap (find (pos j)) same ∙ at, away, kept p (b j) held);
    free = λ j away. ap (find (pos j)) same ∙ h.free j away;
  }

  -- The chunk of an index that is there already is recorded again, at the path of a new file.
  pub again-Holds :
      (c c' : ChunkInfo) (js : List ℕ) (s s' : Server gw.Store) (j : ℕ) (path : Str)
      → (h : Holds gw join_path temp target id n b c js s) → In j js
      → AgreesWith c c'
      → c'.chunk_indexes ≡ h.now.chunk_indexes
      → find id s'.upload_sessions
        ≡ some (record c' { chunk_indexes = insert (pos j) path c'.chunk_indexes })
      → find path s'.disk.files ≡ some (b j)
      → ((q : Str) → path ≢ q → find q s'.disk.files ≡ find q s.disk.files)
      → find path s.disk.files ≡ none
      → target ≢ path
      → Holds gw join_path temp target id n b c js s'
  again-Holds c c' js s s' j path h there (total, account, entry) same found held others fresh
        apart =
      let m = h.now.chunk_indexes in
      let (old, at, _, _) = h.chunks j there in
      record {
        now = record c' { chunk_indexes = insert (pos j) path m };
        found =
            found
            ∙ ap
                (λ (x : List (ℤ × Str)). some (record c' { chunk_indexes = insert (pos j) path x }))
                same;
        total = total;
        account = account;
        entry = entry;
        count = length-insert_old (pos j) path old m at ∙ h.count;
        chunks = λ i mine. elim (Bool-cases (nat_eq j i)) [
          | inl hit ↦
              let e : j ≡ i = ground (arith, hit) in
              subst
                (λ i.
                  (p : Str) × (find (pos i) (insert (pos j) path m) ≡ some p)
                  × (target ≢ p)
                  × (find p s'.disk.files ≡ some (b i)))
                e (path, find-insert_self (pos j) path m, apart, held)
          | inr miss ↦
              let (p, kept, away, bytes) = h.chunks i mine in
              (
                p,
                find-insert_ne (pos j) (pos i) path m (λ e. ground (arith, miss, e)) ∙ kept,
                away,
                others p (λ e. cc (e, fresh, bytes)) ∙ bytes,
              )
        ];
        free = λ i away.
            find-insert_ne (pos j) (pos i) path m
              (λ e. let mine : j ≡ i = cc in away (subst (λ k. In k js) mine there))
            ∙ h.free i away;
      }

  -- What a call that has the mutex leaves before it writes its chunk: the chunks that the session held,
  -- and a copy of the session, unless it fails.
  abbrev pub Goes :
      ChunkInfo → List ℕ → Result (Reply × Server gw.Store) (ChunkInfo × Server gw.Store) → Type 0
  Goes c js (err (reply, s)) = Holds gw join_path temp target id n b c js s
  Goes c js (ok (cinfo, s)) = Holds gw join_path temp target id n b c js s × AgreesWith c cinfo

  module _ (c copy now : ChunkInfo) (js : List ℕ) (s : Server gw.Store) (w : ChunkWorld)
      (h : Holds gw join_path temp target id n b c js s) (agree : AgreesWith c copy)
      (found : find id s.upload_sessions ≡ some now) where
    failed-Goes : (db : gw.Store) → Goes c js (err (internal_server_error, record s { db = db }))
    failed-Goes db =
        moved-Holds c h.now js s _ h (h.total, h.account, h.entry) refl h.found (λ q bytes e. e)

    enter_new_dir-Goes : Goes c js (enter_new_dir gw join_path temp w id (shared copy now) s)
    unfolding enter_new_dir
    enter_new_dir-Goes =
        if_cases (Goes c js) w.mkdir_fails _ _ (λ _. failed-Goes _)
          (λ _. (
            moved-Holds c _ js s _ h agree
                (ap (λ (x : ChunkInfo). x.chunk_indexes)
                  (some-injective now h.now (sym found ∙ h.found)))
                (find-insert_self id _ s.upload_sessions) (λ q bytes e. e),
            agree,
          ))

    pub enter_chunk-Goes : Goes c js (enter_chunk gw join_path temp w id copy now s)
    unfolding enter_chunk
    enter_chunk-Goes =
        if_cases (Goes c js) w.stat_fails _ _ (λ _. failed-Goes _)
          (λ _.
            if_cases (Goes c js) (is_empty copy.dir) _ _ (λ _. enter_new_dir-Goes)
              (λ _.
                if_cases (Goes c js) (exists_dir copy.dir s.disk) _ _ (λ _. (h, agree))
                  (λ _. enter_new_dir-Goes)))

  module _ (w : ChunkWorld) (cinfo now : ChunkInfo) (j : ℕ) (s : Server gw.Store) where
    -- Where the chunk's file goes.
    abbrev pub file_path : Str
    file_path = chunk_path gw join_path temp w cinfo.dir (pos j)

    -- The chunk is recorded at its file, and no other file changes.
    pub record IsTaken (s' : Server gw.Store) : Type 0 where
      pub session :
          find id s'.upload_sessions
          ≡ some (record cinfo { chunk_indexes = insert (pos j) file_path now.chunk_indexes })
      pub held : find file_path s'.disk.files ≡ some (b j)
      pub others : (q : Str) → file_path ≢ q → find q s'.disk.files ≡ find q s.disk.files

    pub leave_chunk-IsTaken :
        w.create_fails ≡ false
        → w.copy_fails ≡ none
        → IsTaken (leave_chunk gw join_path temp w id cinfo now (pos j) (b j) s).1
    unfolding leave_chunk written copied recorded
    leave_chunk-IsTaken create copy =
        rw (create, leave_chunk)
          (rw copy (record {
            session = find-insert_self id _ s.upload_sessions;
            held =
                find-insert_self file_path _ _
                ∙ ap (λ o. some ((elim o [ none ↦ [] | some bytes ↦ bytes ]) ++ b j))
                    (find-insert_self file_path [] s.disk.files);
            others = λ q ne.
                find-insert_ne file_path q _ (insert file_path [] s.disk.files) ne
                ∙ find-insert_ne file_path q [] s.disk.files ne;
          }))

    -- The session and all other files are kept.
    pub record IsBroken (s' : Server gw.Store) : Type 0 where
      pub session : find id s'.upload_sessions ≡ find id s.upload_sessions
      pub others : (q : Str) → file_path ≢ q → find q s'.disk.files ≡ find q s.disk.files

    pub leave_chunk-IsBroken :
        (w.create_fails ≡ true) ⊎ (w.create_fails ≡ false) × (m : ℕ) × (w.copy_fails ≡ some m)
        → IsBroken (leave_chunk gw join_path temp w id cinfo now (pos j) (b j) s).1
    unfolding leave_chunk written copied recorded
    leave_chunk-IsBroken (inl create) =
        rw (create, leave_chunk) (record { session = refl; others = λ q ne. refl })
    leave_chunk-IsBroken (inr (create, m, copy)) =
        rw (create, leave_chunk)
          (rw copy (record {
            session = refl;
            others = λ q ne. elim (Bool-cases w.remove_fails) [
              | inl stays ↦ rw stays (
                  find-insert_ne file_path q _ (insert file_path [] s.disk.files) ne
                  ∙ find-insert_ne file_path q [] s.disk.files ne)
              | inr goes ↦ rw goes (
                  find-remove_ne file_path q (insert file_path [] s.disk.files) ne
                  ∙ find-insert_ne file_path q [] s.disk.files ne)
            ];
          }))
