-- ===== src/Upload/Contract/Endings.antt =====
-- UploadGenerateId, UploadFileComplete and UploadFileStatusFailed keep to the contract.
use local_drive.Base.{
  ℕ, ◌≡◌, refl, sym, ap, subst, ◌∙◌, inl, inr, not, Option, none, some, List, [], ◌∷◌, Str, Result,
  ok, err, find, Str_eq, length, if_cases, Option-cases, arith,
}
use local_drive.Base.Int.{pos, z_eq, ℤ_eq}
use local_drive.Base.Spaces.{is_empty}
use local_drive.Database.{GatewayError, no_file_args, is_duplicate_sql_error}
use local_drive.Api.{UserSessionInfo, Reply}
use local_drive.Files.{File}
use local_drive.Upload.{ChunkInfo, FileGateway, Server, Disk, create, make_dir}
use local_drive.Upload.Generate.{
  RequestFileUploadInfo, add_error, bad_data, new_session, registered, validated,
  upload_generate_id,
}
use local_drive.Upload.Complete.{
  CompleteWorld, MergeError, missing_chunk, disk_error, merge, rounds, finished, merged,
  stored_path, account_dir, complete, complete_checked, marked, upload_file_complete,
  upload_file_status_failed,
}
use local_drive.Upload.Invariant.{new_session-IsSession}
use local_drive.Upload.Requests.{generate, complete as completing, fail}
use local_drive.Upload.Stuck.{merge-Fails}
use local_drive.Upload.Contract.{
  is_there, pending_of, known, view, IsFull, IsSuccess, Step, refused, opens, completes, fails,
}
use local_drive.Upload.Contract.Views.{view-insert, view-remove}

module _ (gw : FileGateway) (sha256 : Str → Str) (id file_id : Str) (now : ℕ) where
  module _ (u : UserSessionInfo) (meta : RequestFileUploadInfo) (s : Server gw.Store) where
    abbrev Opened : Reply × Server gw.Store → Type 0
    Opened out = Step (view s) (generate id file_id now (some u) (some meta)) out.0 (view out.1)

    add_error-refused : (f : File) (e : GatewayError) → ¬ IsSuccess (add_error f e)
    unfolding add_error
    add_error-refused f no_file_args h = h
    add_error-refused f e h =
        if_cases (λ r. ¬ IsSuccess r) (is_duplicate_sql_error e) _ _ (λ _ k. k) (λ _ k. k) h

    registered-Opened :
        (r : Result GatewayError (Unit {0}) × gw.Store)
        → bad_data meta ≡ []
        → Opened (registered gw sha256 id file_id now u meta s r)
    unfolding registered new_session find
    registered-Opened (err e, db) good = refused (add_error-refused _ e)
    registered-Opened (ok _, db) good =
        let valid = new_session-IsSession gw sha256 id file_id now u meta good in
        subst (Step (view s) (generate id file_id now (some u) (some meta)) _)
          (sym (view-insert s id (new_session gw sha256 id file_id now u meta)))
          (opens id file_id now u meta (pending_of (new_session gw sha256 id file_id now u meta))
            refl valid.owner refl valid.total refl)

    validated-Opened :
        (errors : List Str)
        → bad_data meta ≡ errors
        → Opened (validated gw sha256 id file_id now u meta errors s)
    unfolding validated
    validated-Opened [] good = registered-Opened _ good
    validated-Opened (e ∷ errors) bad = refused (λ h. h)

  pub upload_generate_id-Step :
      (user : Option UserSessionInfo) (body : Option RequestFileUploadInfo) (s : Server gw.Store)
      → let out = upload_generate_id gw sha256 id file_id now user body s in
        Step (view s) (generate id file_id now user body) out.0 (view out.1)
  unfolding upload_generate_id
  upload_generate_id-Step none body s = refused (λ h. h)
  upload_generate_id-Step (some u) none s = refused (λ h. h)
  upload_generate_id-Step (some u) (some meta) s = validated-Opened u meta s (bad_data meta) refl

-- A merge that comes to its end has found every index.
merge-IsFull :
    (w : CompleteWorld) (c : ChunkInfo) (stored : Str) (d d' : Disk) (paths : List Str)
    → merge w c.chunk_indexes stored (rounds c.total_chunks) 0 d ≡ (ok paths, d')
    → IsFull (pending_of c)
merge-IsFull w c stored d d' paths h j lt = elim (Option-cases (find (pos j) c.chunk_indexes)) [
  | inr (path, e) ↦ ap is_there e
  | inl e ↦
      let (error, (d'', bad)) =
        merge-Fails w c.chunk_indexes stored j (rounds c.total_chunks) 0 d e (omega arith)
          (omega arith) in
      absurd (ok_err (ap (λ r. r.0) (sym h ∙ bad)))
]
  where
    ok_err : {e : MergeError} → ¬ (◌≡◌ {A = Result MergeError (List Str)} (ok paths) (err e))
    ok_err k = cc

module _ (gw : FileGateway) (join_path : List Str → Str) (storage : Str) (now : ℕ)
    (w : CompleteWorld) (u : UserSessionInfo) (id : Str) (s : Server gw.Store) where
  -- What the call comes to is allowed by the contract.
  abbrev Completed : Reply × Server gw.Store → Type 0
  Completed out = Step (view s) (completing now w (some u) id) out.0 (view out.1)

  merged-Completed :
      (c : ChunkInfo) (stored : Str) (d : Disk) (r : Result MergeError (List Str) × Disk)
      → find id s.upload_sessions ≡ some c
      → merge w c.chunk_indexes stored (rounds c.total_chunks) 0 d ≡ r
      → Completed (merged gw join_path storage now w id c stored s r)
  unfolding merged finished
  merged-Completed c stored d (err missing_chunk, d') found e = refused (λ h. h)
  merged-Completed c stored d (err disk_error, d') found e = refused (λ h. h)
  merged-Completed c stored d (ok paths, d') found e =
      subst (Step (view s) (completing now w (some u) id) _) (sym (view-remove s id)) (
        completes now w u id (pending_of c) _ (ap known found)
          (merge-IsFull w c stored d d' paths e))

  complete_checked-Completed :
      (c : ChunkInfo)
      → find id s.upload_sessions ≡ some c
      → Completed (complete_checked gw join_path storage now w id c s)
  unfolding complete_checked complete
  complete_checked-Completed c found =
      if_cases Completed (not (z_eq c.total_chunks (pos (length c.chunk_indexes)))) _ _
        (λ _. refused (λ h. h))
        (λ _.
          if_cases Completed w.mkdir_fails _ _ (λ _. refused (λ h. h))
            (λ _.
              if_cases Completed w.create_fails _ _ (λ _. refused (λ h. h))
                (λ _.
                  merged-Completed c (stored_path gw join_path storage now w c)
                    (create (stored_path gw join_path storage now w c)
                      (make_dir (account_dir gw join_path storage now w c) s.disk))
                    _ found refl)))

  pub upload_file_complete-Completed :
      Completed (upload_file_complete gw join_path storage now w (some u) id s)
  unfolding upload_file_complete
  upload_file_complete-Completed =
      if_cases Completed (is_empty id) _ _ (λ _. refused (λ h. h))
        (λ _. elim (Option-cases (find id s.upload_sessions)) [
          | inl bad ↦ rw bad (refused (λ h. h))
          | inr (c, good) ↦ rw good (complete_checked-Completed c good)
        ])

  abbrev Marked : Reply × Server gw.Store → Type 0
  Marked out = Step (view s) (fail now w (some u) id) out.0 (view out.1)

  marked-Marked :
      (c : ChunkInfo) (r : Result GatewayError (Unit {0}) × gw.Store)
      → find id s.upload_sessions ≡ some c
      → Marked (marked gw join_path storage now w id s r)
  unfolding marked
  marked-Marked c (err e, db) found = refused (λ h. h)
  marked-Marked c (ok _, db) found =
      if_cases Marked w.response_fails _ _ (λ _. refused (λ h. h))
        (λ _.
          subst (Step (view s) (fail now w (some u) id) _) (sym (view-remove s id))
            (fails now w u id (pending_of c) (ap known found)))

  pub upload_file_status_failed-Marked :
      Marked (upload_file_status_failed gw join_path storage now w (some u) id s)
  unfolding upload_file_status_failed
  upload_file_status_failed-Marked =
      if_cases Marked (is_empty id) _ _ (λ _. refused (λ h. h))
        (λ _. elim (Option-cases (find id s.upload_sessions)) [
          | inl bad ↦ rw bad (refused (λ h. h))
          | inr (c, good) ↦ rw good (marked-Marked c _ good)
        ])
