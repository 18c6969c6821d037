-- ===== src/Upload/Contract.antt =====
-- What the upload handlers promise, without paths, directories, mutexes, the disk and the database: the
-- uploads that are open, each with the chunks that it has received, and the replies with which they
-- change.
pub mod Views
pub mod Chunks
pub mod Endings
pub mod Runs
pub mod Others
use local_drive.Base.{
  ℕ, ◌<◌, ◌≡◌, ◌≢◌, ◌⊎◌, Bool, true, false, Option, none, some, List, [], ◌∷◌, Str, find, Str_eq,
  str_eq, if◌then◌else◌,
}
use local_drive.Base.Int.{ℤ, pos, z_eq, z_gt, z_incr, ℤ_eq}
use local_drive.Base.Decimal.{atoi}
use local_drive.Files.{File, FileResponse}
use local_drive.Api.{UserSessionInfo, Reply, success, upload_id, flag, file, internal_server_error}
use local_drive.Upload.{ChunkInfo, Server}
use local_drive.Upload.Generate.{RequestFileUploadInfo}
use local_drive.Upload.Chunk.{ChunkWorld}
use local_drive.Upload.Complete.{CompleteWorld, rounds}
use local_drive.Upload.Requests.{Request, generate, chunk, complete, fail}

-- An open upload: its owner, its file, its number of chunks and the indexes that it has received.
pub record Pending : Type 0 where
  pub owner : Str
  pub file_info : File
  pub total : ℤ
  pub received : ℤ → Bool

-- The open uploads.
abbrev pub Uploads : Type 0
Uploads = Str → Option Pending

abbrev pub is_there {ℓ} : {A : Type ℓ} → Option A → Bool
is_there none = false
is_there (some a) = true

-- A session as a client knows it.
abbrev pub pending_of : ChunkInfo → Pending
pending_of c = record {
  owner = c.account_id;
  file_info = c.file_info;
  total = c.total_chunks;
  received = λ i. is_there (find i c.chunk_indexes);
}

abbrev pub known : Option ChunkInfo → Option Pending
known none = none
known (some c) = some (pending_of c)

abbrev pub view : {Store : Type 0} → Server Store → Uploads
view s id = known (find id s.upload_sessions)

-- The uploads with one changed.
abbrev pub with_upload : Str → Option Pending → Uploads → Uploads
with_upload id o a j = if str_eq id j then o else a j

abbrev pub with_chunk : ℤ → Pending → Pending
with_chunk i p = record p { received = λ j. (if z_eq i j then true else p.received j) }

-- Every index from 0 up to the number of chunks was received.
abbrev pub IsFull : Pending → Type 0
IsFull p = (j : ℕ) → j < rounds p.total → p.received (pos j) ≡ true

abbrev pub IsSuccess : Reply → Type 0
IsSuccess (success output) = Unit
IsSuccess _ = ⊥

-- What a request may do with a reply. A chunk that was received may be answered with the internal
-- error, where the response could not be written; every other error changes no upload.
pub data Step (a : Uploads) : Request → Reply → Uploads → Type 0 where
  refused : {q : Request} {reply : Reply} → ¬ IsSuccess reply → Step a q reply a
  opens :
      (id file_id : Str) (now : ℕ) (u : UserSessionInfo) (meta : RequestFileUploadInfo)
      (p : Pending)
      → p.owner ≡ u.account_id
      → p.file_info.owner_id ≡ u.account_id
      → p.total ≡ meta.total_chunks
      → p.total ≢ pos 0
      → p.received ≡ (λ i. false)
      → Step a
          (generate id file_id now (some u) (some meta))
          (success (upload_id id))
          (with_upload id (some p) a)
  receives :
      (w : ChunkWorld) (u : UserSessionInfo) (id value : Str) (body : List ℕ) (i : ℤ) (p : Pending)
      {reply : Reply}
      → a id ≡ some p
      → atoi value ≡ some i
      → z_gt (z_incr i) p.total ≡ false
      → (reply ≡ success (flag true)) ⊎ (reply ≡ internal_server_error)
      → Step a (chunk w (some u) id value body) reply (with_upload id (some (with_chunk i p)) a)
  completes :
      (now : ℕ) (w : CompleteWorld) (u : UserSessionInfo) (id : Str) (p : Pending)
      (response : FileResponse)
      → a id ≡ some p
      → IsFull p
      → Step a (complete now w (some u) id) (success (file response)) (with_upload id none a)
  fails :
      (now : ℕ) (w : CompleteWorld) (u : UserSessionInfo) (id : Str) (p : Pending)
      → a id ≡ some p
      → Step a (fail now w (some u) id) (success (flag true)) (with_upload id none a)

-- Requests one after the other, with their replies.
pub data Steps : Uploads → List Request → List Reply → Uploads → Type 0 where
  none_left : {a : Uploads} → Steps a [] [] a
  and_then :
      {a b c : Uploads} {q : Request} {qs : List Request} {reply : Reply} {replies : List Reply}
      → Step a q reply b
      → Steps b qs replies c
      → Steps a (q ∷ qs) (reply ∷ replies) c
