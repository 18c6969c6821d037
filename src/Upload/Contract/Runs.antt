-- ===== src/Upload/Contract/Runs.antt =====
-- The upload handlers against their contract, over any requests.
use local_drive.Base.{none, some, List, [], ◌∷◌, Str}
use local_drive.Api.{Reply}
use local_drive.Upload.{FileGateway, Server}
use local_drive.Upload.Chunk.{upload_file_chunk}
use local_drive.Upload.Complete.{upload_file_complete, upload_file_status_failed}
use local_drive.Upload.Requests.{Request, generate, chunk, complete, fail, handle, run}
use local_drive.Upload.Contract.{Step, refused, Steps, none_left, and_then, view}
use local_drive.Upload.Contract.Chunks.{upload_file_chunk-Allowed}
use local_drive.Upload.Contract.Endings.{
  upload_generate_id-Step, upload_file_complete-Completed, upload_file_status_failed-Marked,
}

module _ (gw : FileGateway) (sha256 : Str → Str) (join_path : List Str → Str)
    (storage temp : Str) where
  -- The replies of the handlers, one request after the other.
  unfoldable pub replies : List Request → Server gw.Store → List Reply
  replies [] s = []
  replies (q ∷ qs) s =
      let (reply, s') = handle gw sha256 join_path storage temp q s in reply ∷ replies qs s'

  handle-Step :
      (q : Request) (s : Server gw.Store)
      → let out = handle gw sha256 join_path storage temp q s in Step (view s) q out.0 (view out.1)
  unfolding handle upload_file_chunk upload_file_complete upload_file_status_failed
  handle-Step (generate id file_id now user body) s =
      upload_generate_id-Step gw sha256 id file_id now user body s
  handle-Step (chunk w none id value body) s = refused (λ h. h)
  handle-Step (chunk w (some u) id value body) s =
      upload_file_chunk-Allowed gw join_path temp w u id value body s
  handle-Step (complete now w none id) s = refused (λ h. h)
  handle-Step (complete now w (some u) id) s =
      upload_file_complete-Completed gw join_path storage now w u id s
  handle-Step (fail now w none id) s = refused (λ h. h)
  handle-Step (fail now w (some u) id) s =
      upload_file_status_failed-Marked gw join_path storage now w u id s

  -- Whatever requests come, one after the other, in whatever state, the open uploads (their owners,
  -- files, numbers of chunks and received indexes) change as the contract says for the replies. An
  -- upload is opened with the reply that gives its ID, for the user and a file of the user's, with the
  -- number of chunks that was asked for, which is not 0, and no chunk. A chunk is received for an open
  -- upload, where its index plus 1, with the overflow of int, is not over the number of chunks, and
  -- the reply is a success or the internal error. An upload is closed with a success, of a call that
  -- completes it, where every index from 0 up to its number was received, or of one that marks it as
  -- failed. Otherwise the reply is no success, and no upload changes.
  pub run-Steps :
      (qs : List Request) (s : Server gw.Store)
      → Steps (view s) qs (replies qs s) (view (run gw sha256 join_path storage temp qs s))
  unfolding run replies
  run-Steps [] s = none_left
  run-Steps (q ∷ qs) s =
      and_then (handle-Step q s) (run-Steps qs (handle gw sha256 join_path storage temp q s).1)
