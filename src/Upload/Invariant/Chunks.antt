-- ===== src/Upload/Invariant/Chunks.antt =====
-- UploadFileChunk keeps every session valid.
use local_drive.Base.{
  ℕ, ◌+◌, ◌≤◌, ◌≡◌, ◌∙◌, sym, ap, find-insert_keys, false, Option, none, some, List, [], ◌∷◌, Str,
  text, find, insert, length-insert-le, Str_eq, length, arith, if_cases, Option-cases, inl, inr,
}
use local_drive.Base.Int.{ℤ, pos, z_eq, z_gt, z_incr, ℤ_eq}
use local_drive.Base.Decimal.{atoi}
use local_drive.Base.Spaces.{is_empty}
use local_drive.Api.{UserSessionInfo}
use local_drive.Upload.{ChunkInfo, FileGateway, Server, create, make_dir, append_to}
use local_drive.Upload.Chunk.{
  ChunkWorld, recorded, copied, written, with_new_dir, indexed, chunk_path, locked, guarded,
  exists_dir, upload_file_chunk,
}
use local_drive.Upload.Invariant.{IsSession, IsServer, LeavesServer, AllSessions-insert}

module _ (gw : FileGateway) where
  module _ (join_path : List Str → Str) (temp : Str) (w : ChunkWorld) where
    -- A session with room for one more chunk, at this index.
    abbrev HasRoom : ℤ → ChunkInfo → Type 0
    HasRoom index c =
        IsSession c
        × ((n : ℕ) → c.total_chunks ≡ pos n → length c.chunk_indexes + 1 ≤ n)
        × (z_gt (z_incr index) c.total_chunks ≡ false)

    recorded-IsServer :
        (id : Str) (c : ChunkInfo) (index : ℤ) (path : Str) (s : Server gw.Store)
        → HasRoom index c
        → IsServer gw s
        → IsServer gw (recorded gw join_path temp w id c index path s)
    unfolding recorded
    recorded-IsServer id c index path s (v, room, below) h =
        AllSessions-insert id _ s.upload_sessions
          (record {
            total = v.total;
            owner = v.owner;
            bounded = λ n e. omega (arith, room n e, length-insert-le index path c.chunk_indexes);
            indexes = λ i p e. elim (find-insert_keys index i path p c.chunk_indexes e) [
              | inl same ↦ ap (λ k. z_gt (z_incr k) c.total_chunks) (sym same) ∙ below
              | inr kept ↦ v.indexes i p kept
            ];
          })
          h

    copied-IsServer :
        (id : Str) (c : ChunkInfo) (index : ℤ) (body : List ℕ) (path : Str) (s : Server gw.Store)
        → HasRoom index c
        → IsServer gw s
        → IsServer gw (copied gw join_path temp w id c index body path s).1
    unfolding copied
    copied-IsServer id c index body path s room h = elim (Option-cases w.copy_fails) [
      | inl good ↦
          rw (good, copied)
            (recorded-IsServer id c index path (record s { disk = append_to path body s.disk }) room
              h)
      | inr (n, bad) ↦ rw (bad, copied) h
    ]

    written-IsServer :
        (id : Str) (c : ChunkInfo) (index : ℤ) (body : List ℕ) (s : Server gw.Store)
        → HasRoom index c
        → IsServer gw s
        → IsServer gw (written gw join_path temp w id c index body s).1
    unfolding written
    written-IsServer id c index body s room h =
        if_cases (LeavesServer gw) w.create_fails _ _ (λ _. h)
          (λ _.
            copied-IsServer id c index body _
              (record s { disk = create (chunk_path gw join_path temp w c.dir index) s.disk }) room
              h)

    with_new_dir-IsServer :
        (id : Str) (c : ChunkInfo) (index : ℤ) (body : List ℕ) (s : Server gw.Store)
        → HasRoom index c
        → IsServer gw s
        → IsServer gw (with_new_dir gw join_path temp w id c index body s).1
    unfolding with_new_dir
    with_new_dir-IsServer id c index body s (v, room, below) h =
        let dir = join_path (temp ∷ text "lcschunks" ∷ id ∷ []) in
        let v' : IsSession (record c { dir = dir }) = record {
          total = v.total;
          owner = v.owner;
          bounded = v.bounded;
          indexes = v.indexes;
        } in
        if_cases (LeavesServer gw) w.mkdir_fails _ _ (λ _. h)
          (λ _.
            written-IsServer id (record c { dir = dir }) index body
              (record s {
                disk = make_dir dir s.disk;
                upload_sessions = insert id (record c { dir = dir }) s.upload_sessions;
              })
              (v', room, below) (AllSessions-insert id _ s.upload_sessions v' h))

    locked-IsServer :
        (id : Str) (c : ChunkInfo) (index : ℤ) (body : List ℕ) (s : Server gw.Store)
        → HasRoom index c
        → IsServer gw s
        → IsServer gw (locked gw join_path temp w id c index body s).1
    unfolding locked
    locked-IsServer id c index body s room h =
        if_cases (LeavesServer gw) w.stat_fails _ _ (λ _. h)
          (λ _.
            if_cases (LeavesServer gw) (is_empty c.dir) _ _
              (λ _. with_new_dir-IsServer id c index body s room h)
              (λ _.
                if_cases (LeavesServer gw) (exists_dir c.dir s.disk) _ _
                  (λ _. written-IsServer id c index body s room h)
                  (λ _. with_new_dir-IsServer id c index body s room h)))

    room_left :
        (index : ℤ) (c : ChunkInfo)
        → IsSession c
        → z_gt (z_incr index) c.total_chunks ≡ false
        → z_eq c.total_chunks (pos (length c.chunk_indexes)) ≡ false
        → HasRoom index c
    room_left index c v below more = (v, λ n e. ground (arith, v.bounded n e), below)

    guarded-IsServer :
        (id : Str) (c : ChunkInfo) (index : ℤ) (body : List ℕ) (s : Server gw.Store)
        → IsSession c
        → IsServer gw s
        → IsServer gw (guarded gw join_path temp w id c index body s).1
    unfolding guarded
    guarded-IsServer id c index body s v h =
        if_cases (LeavesServer gw) (z_gt (z_incr index) c.total_chunks) _ _ (λ _. h)
          (λ below.
            if_cases (LeavesServer gw) (z_eq c.total_chunks (pos (length c.chunk_indexes))) _ _
              (λ _. h)
              (λ more. locked-IsServer id c index body _ (room_left index c v below more) h))

    indexed-IsServer :
        (id : Str) (c : ChunkInfo) (chunk_value : Str) (body : List ℕ) (s : Server gw.Store)
        → IsSession c
        → IsServer gw s
        → IsServer gw (indexed gw join_path temp w id c chunk_value body s).1
    unfolding indexed
    indexed-IsServer id c chunk_value body s v h = elim (Option-cases (atoi chunk_value)) [
      | inl bad ↦ rw (bad, indexed) h
      | inr (index, good) ↦ rw (good, indexed) (guarded-IsServer id c index body s v h)
    ]

    pub upload_file_chunk-IsServer :
        (user : Option UserSessionInfo) (id chunk_value : Str) (body : List ℕ) (s : Server gw.Store)
        → IsServer gw s
        → IsServer gw (upload_file_chunk gw join_path temp w user id chunk_value body s).1
    unfolding upload_file_chunk
    upload_file_chunk-IsServer none id chunk_value body s h = h
    upload_file_chunk-IsServer (some user) id chunk_value body s h =
        elim (Option-cases (find id s.upload_sessions)) [
          | inl bad ↦ rw (bad, upload_file_chunk) h
          | inr (c, good) ↦
              rw (good, upload_file_chunk)
                (indexed-IsServer id c chunk_value body s (h id c good) h)
        ]
