-- ===== src/Upload/Contract/Chunks.antt =====
-- UploadFileChunk keeps to the contract.
use local_drive.Base.{
  ℕ, ◌≡◌, refl, sym, ap, subst, ◌∙◌, ◌⊎◌, inl, inr, Bool, true, false, some, List, [], ◌∷◌, Str,
  text, find, insert, Str_eq, length, if_cases, Option-cases, if◌then◌else◌,
}
use local_drive.Base.Int.{ℤ, pos, z_eq, z_gt, z_incr, ℤ_eq}
use local_drive.Base.Decimal.{atoi}
use local_drive.Base.Spaces.{is_empty}
use local_drive.Api.{UserSessionInfo, Reply, success, flag, internal_server_error}
use local_drive.Upload.{ChunkInfo, FileGateway, Server, mutex_get, create, make_dir}
use local_drive.Upload.Chunk.{
  ChunkWorld, recorded, copied, written, with_new_dir, indexed, chunk_path, locked, guarded,
  exists_dir, upload_file_chunk,
}
use local_drive.Upload.Requests.{chunk}
use local_drive.Upload.Contract.{
  Uploads, pending_of, known, view, with_upload, with_chunk, IsSuccess, Step, refused, receives,
}
use local_drive.Upload.Contract.Views.{view-insert, with_upload_same, pending_of-insert}

module _ (gw : FileGateway) (join_path : List Str → Str) (temp : Str) (w : ChunkWorld) (id : Str)
    (c : ChunkInfo) (index : ℤ) (a : Uploads) where
  -- The call changed no upload and did not succeed, or the chunk was received.
  abbrev Chunked : Reply × Server gw.Store → Type 0
  Chunked out =
      ((view out.1 ≡ a) × (¬ IsSuccess out.0))
      ⊎ ((view out.1 ≡ with_upload id (some (with_chunk index (pending_of c))) a)
          × ((out.0 ≡ success (flag true)) ⊎ (out.0 ≡ internal_server_error)))

  reply-cases :
      (b : Bool)
      → let reply = (if b then internal_server_error else success (flag true)) in
        (reply ≡ success (flag true)) ⊎ (reply ≡ internal_server_error)
  reply-cases true = inr refl
  reply-cases false = inl refl

  module _ (dir : Str) (body : List ℕ) where
    -- The session with some directory.
    abbrev at_dir : ChunkInfo
    at_dir = record c { dir = dir }

    copied-Chunked :
        (path : Str) (s : Server gw.Store)
        → view s ≡ a
        → Chunked (copied gw join_path temp w id at_dir index body path s)
    unfolding copied recorded
    copied-Chunked path s h = elim (Option-cases w.copy_fails) [
      | inl good ↦
          rw (good, copied)
            (inr (
              view-insert s id _
                  ∙ ap (λ p. with_upload id (some p) (view s)) (pending_of-insert at_dir index path)
                  ∙ ap (with_upload id (some (with_chunk index (pending_of c)))) h,
              reply-cases w.response_fails,
            ))
      | inr (n, bad) ↦ rw (bad, copied) (inl (h, λ f. f))
    ]

    written-Chunked :
        (s : Server gw.Store)
        → view s ≡ a
        → Chunked (written gw join_path temp w id at_dir index body s)
    unfolding written
    written-Chunked s h =
        if_cases Chunked w.create_fails _ _ (λ _. inl (h, λ f. f))
          (λ _.
            copied-Chunked _
              (record s { disk = create (chunk_path gw join_path temp w dir index) s.disk }) h)

  with_new_dir-Chunked :
      (body : List ℕ) (s : Server gw.Store)
      → view s ≡ a
      → a id ≡ some (pending_of c)
      → Chunked (with_new_dir gw join_path temp w id c index body s)
  unfolding with_new_dir
  with_new_dir-Chunked body s h e =
      let dir = join_path (temp ∷ text "lcschunks" ∷ id ∷ []) in
      if_cases Chunked w.mkdir_fails _ _ (λ _. inl (h, λ f. f))
        (λ _.
          written-Chunked dir body
            (record s {
              disk = make_dir dir s.disk;
              upload_sessions = insert id (at_dir dir body) s.upload_sessions;
            })
            (view-insert s id (at_dir dir body)
              ∙ ap (with_upload id (some (pending_of c))) h
              ∙ with_upload_same id (pending_of c) a e))

  locked-Chunked :
      (body : List ℕ) (s : Server gw.Store)
      → view s ≡ a
      → a id ≡ some (pending_of c)
      → Chunked (locked gw join_path temp w id c index body s)
  unfolding locked
  locked-Chunked body s h e =
      if_cases Chunked w.stat_fails _ _ (λ _. inl (h, λ f. f))
        (λ _.
          if_cases Chunked (is_empty c.dir) _ _ (λ _. with_new_dir-Chunked body s h e)
            (λ _.
              if_cases Chunked (exists_dir c.dir s.disk) _ _ (λ _. written-Chunked c.dir body s h)
                (λ _. with_new_dir-Chunked body s h e)))

module _ (gw : FileGateway) (join_path : List Str → Str) (temp : Str) (w : ChunkWorld)
    (u : UserSessionInfo) (id value : Str) (body : List ℕ) (s : Server gw.Store) where
  -- What the call comes to is allowed by the contract.
  abbrev Allowed : Reply × Server gw.Store → Type 0
  Allowed out = Step (view s) (chunk w (some u) id value body) out.0 (view out.1)

  -- An error that leaves the uploads as they are.
  kept-Allowed :
      (out : Reply × Server gw.Store) → view out.1 ≡ view s → ¬ IsSuccess out.0 → Allowed out
  kept-Allowed out h ns =
      subst (Step (view s) (chunk w (some u) id value body) out.0) (sym h) (refused ns)

  guarded-Allowed :
      (c : ChunkInfo) (index : ℤ)
      → find id s.upload_sessions ≡ some c
      → atoi value ≡ some index
      → Allowed (guarded gw join_path temp w id c index body s)
  unfolding guarded
  guarded-Allowed c index found parsed =
      let locked_by = record s { upload_mutex = mutex_get id s.upload_mutex } in
      let open_upload : view s id ≡ some (pending_of c) = ap known found in
      if_cases Allowed (z_gt (z_incr index) c.total_chunks) _ _ (λ _. refused (λ f. f))
        (λ small.
          if_cases Allowed (z_eq c.total_chunks (pos (length c.chunk_indexes))) _ _
            (λ _. refused (λ f. f))
            (λ _.
              elim (locked-Chunked gw join_path temp w id c index (view s) body locked_by refl
                open_upload) [
                  | inl (h, ns) ↦
                      kept-Allowed (locked gw join_path temp w id c index body locked_by) h ns
                  | inr (h, replied) ↦
                      subst (Step (view s) (chunk w (some u) id value body) _) (sym h) (
                        receives w u id value body index (pending_of c) open_upload parsed small
                          replied)
                ]))

  indexed-Allowed :
      (c : ChunkInfo)
      → find id s.upload_sessions ≡ some c
      → Allowed (indexed gw join_path temp w id c value body s)
  unfolding indexed
  indexed-Allowed c found = elim (Option-cases (atoi value)) [
    | inl bad ↦ rw (bad, indexed) (refused (λ f. f))
    | inr (index, good) ↦ rw (good, indexed) (guarded-Allowed c index found good)
  ]

  pub upload_file_chunk-Allowed :
      Allowed (upload_file_chunk gw join_path temp w (some u) id value body s)
  unfolding upload_file_chunk
  upload_file_chunk-Allowed = elim (Option-cases (find id s.upload_sessions)) [
    | inl bad ↦ rw (bad, upload_file_chunk) (refused (λ f. f))
    | inr (c, good) ↦ rw (good, upload_file_chunk) (indexed-Allowed c good)
  ]
