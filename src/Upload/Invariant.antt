-- ===== src/Upload/Invariant.antt =====
-- What holds of every upload session: the invariant, and UploadGenerateId.
pub mod Chunks
pub mod Completion
pub mod Requests
use local_drive.Base.{
  ℕ, ◌+◌, ◌≤◌, ◌≡◌, ◌≢◌, refl, Bool, true, false, not, Option, none, some, List, [], ◌∷◌, ◌++◌, Str,
  text, Result, ok, err, find, insert, remove, find-insert_cases, find-remove-some, subst,
  length-insert-le, Str_eq, length, if◌then◌else◌, arith, Bool-cases, if_cases, Option-cases, inl,
  inr,
}
use local_drive.Base.Int.{ℤ, pos, z_eq, z_eq_iff, z_gt, z_incr, ℤ_eq}
use local_drive.Base.Decimal.{atoi}
use local_drive.Base.Spaces.{is_empty}
use local_drive.Files.{File, new_file}
use local_drive.Database.{GatewayError}
use local_drive.Api.{UserSessionInfo, Reply}
use local_drive.Upload.{ChunkInfo, FileGateway, Server, Disk, create, make_dir, append_to}
use local_drive.Upload.Generate.{
  RequestFileUploadInfo, bad_data, new_entry, new_session, registered, validated,
  upload_generate_id,
}
use local_drive.Upload.Chunk.{
  ChunkWorld, recorded, copied, written, with_new_dir, indexed, chunk_path, locked, guarded,
  exists_dir, upload_file_chunk,
}
use local_drive.Upload.Complete.{
  CompleteWorld, MergeError, merged, marked, complete, complete_checked, upload_file_complete,
  upload_file_status_failed,
}

-- A session has a number of chunks other than 0 and belongs to the owner of its file. Where the number
-- is not negative, the session holds no more chunks. The guard on indexes lets the index of each of its
-- chunks pass.
pub record IsSession (c : ChunkInfo) : Type 0 where
  pub total : c.total_chunks ≢ pos 0
  pub owner : c.file_info.owner_id ≡ c.account_id
  pub bounded : (n : ℕ) → c.total_chunks ≡ pos n → length c.chunk_indexes ≤ n
  pub indexes :
      (i : ℤ) (path : Str)
      → find i c.chunk_indexes ≡ some path
      → z_gt (z_incr i) c.total_chunks ≡ false

abbrev pub AllSessions : List (Str × ChunkInfo) → Type 0
AllSessions m = (id : Str) (c : ChunkInfo) → find id m ≡ some c → IsSession c

pub AllSessions-insert :
    (id : Str) (c : ChunkInfo) (m : List (Str × ChunkInfo))
    → IsSession c
    → AllSessions m
    → AllSessions (insert id c m)
AllSessions-insert id c m new old j d e = elim (find-insert_cases id j c d m e) [
  | inl same ↦ subst IsSession same new
  | inr kept ↦ old j d kept
]

pub AllSessions-remove :
    (id : Str) (m : List (Str × ChunkInfo)) → AllSessions m → AllSessions (remove id m)
AllSessions-remove id m old j d e = old j d (find-remove-some id j d m e)

module _ (gw : FileGateway) where
  abbrev pub IsServer : Server gw.Store → Type 0
  IsServer s = AllSessions s.upload_sessions

  -- The state after a request.
  abbrev pub LeavesServer : Reply × Server gw.Store → Type 0
  LeavesServer r = IsServer r.1

  module _ (sha256 : Str → Str) (id file_id : Str) (now : ℕ) where
    pub new_session-IsSession :
        (user : UserSessionInfo) (meta : RequestFileUploadInfo)
        → bad_data meta ≡ []
        → IsSession (new_session gw sha256 id file_id now user meta)
    unfolding bad_data new_session new_entry new_file find
    new_session-IsSession user meta good = record {
      total = ground arith;
      owner = refl;
      bounded = λ n e. omega arith;
      indexes = λ i path e. cc;
    }

    registered-IsServer :
        (user : UserSessionInfo) (meta : RequestFileUploadInfo) (s : Server gw.Store)
        (r : Result GatewayError (Unit {0}) × gw.Store)
        → bad_data meta ≡ []
        → IsServer s
        → IsServer (registered gw sha256 id file_id now user meta s r).1
    unfolding registered
    registered-IsServer user meta s (err e, db) good h = h
    registered-IsServer user meta s (ok _, db) good h =
        AllSessions-insert id _ s.upload_sessions (new_session-IsSession user meta good) h

    validated-IsServer :
        (user : UserSessionInfo) (meta : RequestFileUploadInfo) (errors : List Str)
        (s : Server gw.Store)
        → bad_data meta ≡ errors
        → IsServer s
        → IsServer (validated gw sha256 id file_id now user meta errors s).1
    unfolding validated
    validated-IsServer user meta [] s good h = registered-IsServer user meta s _ good h
    validated-IsServer user meta (e ∷ errors) s bad h = h

    pub upload_generate_id-IsServer :
        (user : Option UserSessionInfo) (body : Option RequestFileUploadInfo) (s : Server gw.Store)
        → IsServer s
        → IsServer (upload_generate_id gw sha256 id file_id now user body s).1
    unfolding upload_generate_id
    upload_generate_id-IsServer none body s h = h
    upload_generate_id-IsServer (some user) none s h = h
    upload_generate_id-IsServer (some user) (some meta) s h =
        validated-IsServer user meta (bad_data meta) s refl h
