-- ===== src/Upload/Overlap/AtOnce.antt =====
-- The parts of a call of UploadFileChunk, one right after the other, are the call.
use local_drive.Base.{ℕ, List, Str, Result, ok, err, Str_eq}
use local_drive.Base.Int.{ℤ, ℤ_eq}
use local_drive.Api.{Reply}
use local_drive.Upload.{ChunkInfo, FileGateway, Server}
use local_drive.Upload.Chunk.{ChunkWorld}
use local_drive.Upload.Overlap.{with_mutex, enter_chunk, leave_chunk}

module _ (gw : FileGateway) (join_path : List Str → Str) (temp : Str) where
  module _ (w : ChunkWorld) (id : Str) (body : List ℕ) where
    -- The rest of a call that nothing comes in between of.
    abbrev left_at_once :
        ℤ → Result (Reply × Server gw.Store) (ChunkInfo × Server gw.Store) → Reply × Server gw.Store
    left_at_once index (err out) = out
    left_at_once index (ok (cinfo, s)) = leave_chunk gw join_path temp w id cinfo cinfo index body s

    abbrev pub at_once : Server gw.Store → Result Reply (ChunkInfo × ℤ) → Reply × Server gw.Store
    at_once s (err reply) = (reply, s)
    at_once s (ok (copy, index)) =
        left_at_once index (enter_chunk gw join_path temp w id copy copy (with_mutex id s))
