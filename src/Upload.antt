-- ===== src/Upload.antt =====
-- Uploads in chunks (src/api/file_handler.go, src/api/mutex_map.go): the state of the handler, the
-- operating system, and what its handlers share.
pub mod Generate
pub mod Chunk
pub mod Complete
pub mod Requests
pub mod Invariant
pub mod Merge
pub mod Delivered
pub mod Recorded
pub mod Held
pub mod Whole
pub mod Overlap
pub mod Kept
pub mod Interleaved
pub mod Stuck
pub mod Twice
pub mod Contract
mod Tests
use local_drive.Base.{
  ℕ, zero, suc, Bool, true, false, Option, none, some, List, [], ◌∷◌, ◌++◌, Str, text, Result, ok,
  err, ◌≡◌, ◌≢◌, refl, inl, inr, Option-cases, find-insert_self, find-insert_ne, find, insert,
  remove, Str_eq, if◌then◌else◌,
}
use local_drive.Base.Int.{ℤ, pos, negsuc}
use local_drive.Base.Decimal.{show}
use local_drive.Sql.Placeholder.{Arg}
use local_drive.Files.{File, UploadStatus, upload_failed}
use local_drive.Database.{GatewayError}

pub record ChunkInfo : Type 0 where
  pub total_chunks : ℤ
  pub dir : Str
  pub account_id : Str
  pub file_info : File
  pub chunk_indexes : List (ℤ × Str)

-- What the handlers call of the file gateway.
pub record FileGateway : Type 1 where
  pub Store : Type 0
  pub add_file : Store → List File → Result GatewayError (Unit {0}) × Store
  pub update_file : ℕ → Store → Str → Str → Str → Arg → Result GatewayError (Unit {0}) × Store
  pub update_upload_status :
      Store → Str → Str → UploadStatus → Result GatewayError (Unit {0}) × Store

-- The files of the disk with their bytes, and its directories.
pub record Disk : Type 0 where
  pub files : List (Str × List ℕ)
  pub dirs : List (Str × Unit {0})

-- A mutex is held only within a call, so between calls the map holds unlocked ones.
pub record Server (Store : Type 0) : Type 0 where
  pub upload_sessions : List (Str × ChunkInfo)
  pub upload_mutex : List (Str × Unit {0})
  pub disk : Disk
  pub db : Store

-- MutexMap.Get and MutexMap.Remove, on the map's keys
unfoldable pub mutex_get : Str → List (Str × Unit {0}) → List (Str × Unit {0})
mutex_get k m = elim (find k m) [ none ↦ insert k tt m | some _ ↦ m ]

pub find-mutex_get_self :
    (id : Str) (m : List (Str × Unit {0})) → find id (mutex_get id m) ≡ some tt
unfolding mutex_get
find-mutex_get_self id m = elim (Option-cases (find id m)) [
  | inl e ↦ rw (e, mutex_get) (find-insert_self id tt m)
  | inr (x, e) ↦ rw (e, mutex_get) e
]

pub find-mutex_get_ne :
    (id j : Str) (m : List (Str × Unit {0})) → id ≢ j → find j (mutex_get id m) ≡ find j m
unfolding mutex_get
find-mutex_get_ne id j m ne = elim (Option-cases (find id m)) [
  | inl e ↦ rw (e, mutex_get) (find-insert_ne id j tt m ne)
  | inr (x, e) ↦ rw (e, mutex_get) refl
]

unfoldable pub mutex_remove : Str → List (Str × Unit {0}) → List (Str × Unit {0})
mutex_remove k m = remove k m

-- os.Create and an open file's next bytes
abbrev pub create : Str → Disk → Disk
create path d = record d { files = insert path [] d.files }

abbrev pub contents : Str → Disk → List ℕ
contents path d = elim (find path d.files) [ none ↦ [] | some bytes ↦ bytes ]

abbrev pub append_to : Str → List ℕ → Disk → Disk
append_to path bytes d = record d { files = insert path (contents path d ++ bytes) d.files }

abbrev pub make_dir : Str → Disk → Disk
make_dir path d = record d { dirs = insert path tt d.dirs }

-- removeFile; where the operating system refuses, the error is only logged.
unfoldable pub remove_file : (Str → Bool) → Str → Disk → Disk
remove_file refused path d = if refused path then d else record d { files = remove path d.files }

unfoldable pub remove_files : (Str → Bool) → List Str → Disk → Disk
remove_files refused [] d = d
remove_files refused (path ∷ paths) d = remove_files refused paths (remove_file refused path d)

-- %d
unfoldable pub show_int : ℤ → Str
show_int (pos n) = show n
show_int (negsuc n) = text "-" ++ show (suc n)

module _ (gw : FileGateway) where
  -- updateUploadStatusFailed; its error is only logged.
  unfoldable pub update_upload_status_failed : gw.Store → Str → Str → gw.Store
  update_upload_status_failed s account_id file_id =
      (gw.update_upload_status s account_id file_id upload_failed).1
