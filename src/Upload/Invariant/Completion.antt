-- ===== src/Upload/Invariant/Completion.antt =====
-- UploadFileComplete and UploadFileStatusFailed keep every session valid.
use local_drive.Base.{
  ℕ, not, Option, none, some, List, Str, Result, ok, err, find, Str_eq, length, if_cases,
  Option-cases, inl, inr,
}
use local_drive.Base.Int.{pos, z_eq, ℤ_eq}
use local_drive.Base.Spaces.{is_empty}
use local_drive.Database.{GatewayError}
use local_drive.Api.{UserSessionInfo}
use local_drive.Upload.{ChunkInfo, FileGateway, Server, Disk}
use local_drive.Upload.Complete.{
  CompleteWorld, MergeError, merged, marked, complete, complete_checked, upload_file_complete,
  upload_file_status_failed,
}
use local_drive.Upload.Invariant.{IsServer, LeavesServer, AllSessions-remove}

module _ (gw : FileGateway) where
  module _ (join_path : List Str → Str) (storage : Str) (now : ℕ) (w : CompleteWorld) where
    merged-IsServer :
        (id : Str) (c : ChunkInfo) (stored : Str) (s : Server gw.Store)
        (r : Result MergeError (List Str) × Disk)
        → IsServer gw s
        → IsServer gw (merged gw join_path storage now w id c stored s r).1
    unfolding merged
    merged-IsServer id c stored s (err e, d) h = h
    merged-IsServer id c stored s (ok paths, d) h = AllSessions-remove id s.upload_sessions h

    complete_checked-IsServer :
        (id : Str) (c : ChunkInfo) (s : Server gw.Store)
        → IsServer gw s
        → IsServer gw (complete_checked gw join_path storage now w id c s).1
    unfolding complete_checked complete
    complete_checked-IsServer id c s h =
        if_cases (LeavesServer gw) (not (z_eq c.total_chunks (pos (length c.chunk_indexes)))) _ _
          (λ _. h)
          (λ _.
            if_cases (LeavesServer gw) w.mkdir_fails _ _ (λ _. h)
              (λ _.
                if_cases (LeavesServer gw) w.create_fails _ _ (λ _. h)
                  (λ _. merged-IsServer id c _ s _ h)))

    pub upload_file_complete-IsServer :
        (user : Option UserSessionInfo) (id : Str) (s : Server gw.Store)
        → IsServer gw s
        → IsServer gw (upload_file_complete gw join_path storage now w user id s).1
    unfolding upload_file_complete
    upload_file_complete-IsServer none id s h = h
    upload_file_complete-IsServer (some user) id s h =
        if_cases (LeavesServer gw) (is_empty id) _ _ (λ _. h)
          (λ _. elim (Option-cases (find id s.upload_sessions)) [
            | inl bad ↦ rw bad h
            | inr (c, good) ↦ rw good (complete_checked-IsServer id c s h)
          ])

    marked-IsServer :
        (id : Str) (s : Server gw.Store) (r : Result GatewayError (Unit {0}) × gw.Store)
        → IsServer gw s
        → IsServer gw (marked gw join_path storage now w id s r).1
    unfolding marked
    marked-IsServer id s (err e, db) h = h
    marked-IsServer id s (ok _, db) h =
        if_cases (LeavesServer gw) w.response_fails _ _ (λ _. h)
          (λ _. AllSessions-remove id s.upload_sessions h)

    pub upload_file_status_failed-IsServer :
        (user : Option UserSessionInfo) (id : Str) (s : Server gw.Store)
        → IsServer gw s
        → IsServer gw (upload_file_status_failed gw join_path storage now w user id s).1
    unfolding upload_file_status_failed
    upload_file_status_failed-IsServer none id s h = h
    upload_file_status_failed-IsServer (some user) id s h =
        if_cases (LeavesServer gw) (is_empty id) _ _ (λ _. h)
          (λ _. elim (Option-cases (find id s.upload_sessions)) [
            | inl bad ↦ rw bad h
            | inr (c, good) ↦ rw good (marked-IsServer id s _ h)
          ])
