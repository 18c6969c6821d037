-- ===== src/Upload/Stuck/Attempts.antt =====
-- What the requests on such a session leave of it.
use local_drive.Base.{
  ℕ, ◌<◌, ◌≡◌, sym, ap, subst, ◌∙◌, Option, none, some, List, [], ◌∷◌, Str, find, length, Str_eq,
  All,
}
use local_drive.Base.Int.{pos, ℤ_eq}
use local_drive.Api.{UserSessionInfo, Reply, success, failure, success_with_error, stream, panic}
use local_drive.Upload.{ChunkInfo, FileGateway, Server}
use local_drive.Upload.Chunk.{upload_file_chunk}
use local_drive.Upload.Complete.{CompleteWorld, upload_file_complete}
use local_drive.Upload.Requests.{Request, generate, chunk, complete, fail, handle, run}
use local_drive.Upload.Stuck.{Refused, upload_file_chunk-full, upload_file_complete-Refused}

-- A call to upload a chunk of the session, or to complete it.
abbrev pub IsAttempt : Str → Request → Type 0
IsAttempt id (chunk _ _ request_id _ _) = request_id ≡ id
IsAttempt id (complete _ _ _ request_id) = request_id ≡ id
IsAttempt id _ = ⊥

module _ (gw : FileGateway) (sha256 : Str → Str) (join_path : List Str → Str)
    (storage temp : Str) where
  -- What an attempt leaves: the session as it was.
  module _ (id : Str) (c : ChunkInfo) (j : ℕ) (t : c.total_chunks ≡ pos (length c.chunk_indexes))
      (b : j < length c.chunk_indexes) (none_at : find (pos j) c.chunk_indexes ≡ none) where
    refused_kept :
        (now : ℕ) (w : CompleteWorld) (user : Option UserSessionInfo) (s : Server gw.Store)
        → find id s.upload_sessions ≡ some c
        → find id (upload_file_complete gw join_path storage now w user id s).1.upload_sessions
          ≡ some c
    refused_kept now w user s e =
        kept (upload_file_complete gw join_path storage now w user id s)
          (upload_file_complete-Refused gw join_path id c s storage now w user j t b none_at e)
      where
        kept :
            (r : Reply × Server gw.Store)
            → Refused gw join_path id c s storage now w r
            → find id r.1.upload_sessions ≡ some c
        kept (failure code message reason, s') h = h
        kept (success output, s') h = absurd h
        kept (success_with_error output code message reason, s') h = absurd h
        kept (stream headers bytes cut, s') h = absurd h
        kept (panic, s') h = absurd h

    handle-kept :
        (r : Request) (s : Server gw.Store)
        → IsAttempt id r
        → find id s.upload_sessions ≡ some c
        → find id (handle gw sha256 join_path storage temp r s).1.upload_sessions ≡ some c
    unfolding handle
    handle-kept (chunk w user request_id value body) s own e =
        subst
          (λ i.
            find id (upload_file_chunk gw join_path temp w user i value body s).1.upload_sessions
            ≡ some c)
          (sym own)
          (ap (λ (s : Server gw.Store). find id s.upload_sessions)
              (upload_file_chunk-full gw join_path id c s temp w user value body e t)
            ∙ e)
    handle-kept (complete now w user request_id) s own e =
        subst
          (λ i.
            find id (upload_file_complete gw join_path storage now w user i s).1.upload_sessions
            ≡ some c)
          (sym own) (refused_kept now w user s e)
    handle-kept (generate _ _ _ _ _) s own e = absurd own
    handle-kept (fail _ _ _ _) s own e = absurd own

  -- A session that has as many chunks as its number but lacks an index below it is never completed:
  -- whatever chunks are uploaded to it and however often it is completed, with whatever answers of
  -- the operating system, it stays as it is.
  pub run_stuck :
      (id : Str) (c : ChunkInfo) (j : ℕ) (rs : List Request) (s : Server gw.Store)
      → c.total_chunks ≡ pos (length c.chunk_indexes)
      → j < length c.chunk_indexes
      → find (pos j) c.chunk_indexes ≡ none
      → find id s.upload_sessions ≡ some c
      → All (IsAttempt id) rs
      → find id (run gw sha256 join_path storage temp rs s).upload_sessions ≡ some c
  unfolding run
  run_stuck id c j [] s t b none_at e own = e
  run_stuck id c j (r ∷ rs) s t b none_at e (own, more) =
      run_stuck id c j rs (handle gw sha256 join_path storage temp r s).1 t b none_at
        (handle-kept id c j t b none_at r s own e) more
