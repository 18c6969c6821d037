-- ===== src/Files/Walk.antt =====
-- walk and Read of src/file/file.go. What filepath.Walk visits is a list, in its order; the functions
-- Base, Dir and Ext of path/filepath and SHA-256 are parameters.
pub mod Parents
mod Tests
use local_drive.Base.{
  ℕ, Bool, true, false, Option, none, some, List, [], ◌∷◌, ◌++◌, Str, text, str_eq, Result, ok, err,
  ◌>>=◌, find, insert, Str_eq, if◌then◌else◌,
}
use local_drive.Base.Int.{ℤ}
use local_drive.Files.{File, FileType, new_file, file_type_dir, file_type_file, upload_pending}

-- A call of the function that Walk is given: the path, what `info` says, the error or nil, and the two
-- IDs and the time that the call is answered.
pub record Visit : Type 0 where
  pub path : Str
  pub name : Str
  pub is_dir : Bool
  pub size : ℤ
  pub error : Option Str
  pub id : Str
  pub generated_id : Str
  pub now : ℕ

-- A folder that has no ID in the map keeps none, as `map[key]` does.
abbrev pub or_empty : Option Str → Str
or_empty none = []
or_empty (some id) = id

-- What walkFunc shares with walk: the IDs of the folders by their paths, and the files so far.
pub record Walked : Type 0 where
  pub folder_id_map : List (Str × Str)
  pub fs : List File

module _ (sha256 base dir ext : Str → Str) (root : Str) where
  abbrev pub account_id : Str
  account_id = base root

  abbrev pub file_type_of : Visit → FileType
  file_type_of v = if v.is_dir then file_type_dir else file_type_file

  -- The File of a visit whose parent has an ID, with its ID and path set after NewFile.
  unfoldable pub walked_file : Visit → Str → File
  walked_file v parent_id =
      record (new_file sha256 v.generated_id v.now account_id v.name (file_type_of v) (ext v.path)
        v.size parent_id upload_pending) { file_id = v.id; path = account_id ++ (text "/" ++ v.id) }

  -- The ID of a folder is kept where its path has none.
  unfoldable pub with_folder : Visit → List (Str × Str) → List (Str × Str)
  with_folder v folders =
      if v.is_dir
      then elim (find v.path folders) [ none ↦ insert v.path v.id folders | some id ↦ folders ]
      else folders

  unfoldable pub add_visit : Visit → Walked → Walked
  unfolding with_folder walked_file
  add_visit v s =
      let folders = with_folder v s.folder_id_map in
      record {
        folder_id_map = folders;
        fs = s.fs ++ (walked_file v (or_empty (find (dir v.path) folders)) ∷ []);
      }

  -- walkFunc; the root is skipped.
  unfoldable pub walk_func : Visit → Walked → Result Str Walked
  unfolding add_visit
  walk_func v s = elim v.error [
    | none ↦ ok (if str_eq v.path root then s else add_visit v s)
    | some e ↦ err e
  ]

  -- filepath.Walk, which ends with the first error that the function returns.
  unfoldable pub walk_all : List Visit → Walked → Result Str Walked
  unfolding walk_func
  walk_all [] s = ok s
  walk_all (v ∷ vs) s = walk_func v s >>= walk_all vs

  unfoldable pub files_of : Result Str Walked → Result Str (List File)
  files_of (err e) = err e
  files_of (ok s) = ok s.fs

  unfoldable pub walk : List Visit → Result Str (List File)
  unfolding walk_all walk_func files_of
  walk visits = files_of (walk_all visits (record { folder_id_map = (root, []) ∷ []; fs = [] }))

  -- Read
  unfoldable pub read : List Visit → Result Str (List File)
  unfolding walk
  read visits = elim (walk visits) [ err e ↦ err e | ok fs ↦ ok fs ]
