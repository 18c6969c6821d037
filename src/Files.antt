-- ===== src/Files.antt =====
-- File metadata (src/file/file.go) and the text hash of src/utils/string_utils.go. A time is a
-- number that stands for an instant in UTC. SHA-256 (in hexadecimal) is a parameter.
pub mod Columns
pub mod Flatten
pub mod Walk
pub mod Clean
mod Tests
use local_drive.Base.{
  ℕ, Bool, Option, none, some, List, [], ◌∷◌, ◌++◌, map, Str, text, concat, str_eq, if◌then◌else◌,
  trim_prefix,
}
use local_drive.Base.Int.{ℤ}
use local_drive.Sql.Placeholder.{Arg, str, int, time, null}

-- FileType and UploadStatus are Go strings.
abbrev pub FileType : Type 0
FileType = Str

abbrev pub file_type_dir : FileType
file_type_dir = text "dir"

abbrev pub file_type_file : FileType
file_type_file = text "file"

abbrev pub UploadStatus : Type 0
UploadStatus = Str

abbrev pub upload_completed : UploadStatus
upload_completed = text "completed"

abbrev pub upload_failed : UploadStatus
upload_failed = text "failed"

abbrev pub upload_pending : UploadStatus
upload_pending = text "pending"

pub record File : Type 0 where
  pub owner_id : Str
  pub name : Str
  pub type : FileType
  pub file_id : Str
  pub extension : Str
  pub parent_id : Str
  pub path : Str
  pub size : ℤ
  pub modified_on : ℕ
  pub deleted_on : Option ℕ
  pub upload_status : UploadStatus
  pub unique_hash : Str

-- A File without its owner and its path.
pub record FileResponse : Type 0 where
  pub name : Str
  pub type : FileType
  pub file_id : Str
  pub extension : Str
  pub parent_id : Str
  pub size : ℤ
  pub modified_on : ℕ
  pub deleted_on : Option ℕ
  pub upload_status : UploadStatus
  pub unique_hash : Str

module _ (sha256 : Str → Str) where
  -- utils.HashString
  unfoldable pub hash_string : List Str → Str
  hash_string s = sha256 (concat s)

  -- NewFile, with the generated ID and the current time.
  unfoldable pub new_file :
      (id : Str) (now : ℕ) → Str → Str → FileType → Str → ℤ → Str → UploadStatus → File
  unfolding hash_string
  new_file id now account_id file_name file_type file_ext file_size parent_id status =
      let ext = trim_prefix (text ".") file_ext in
      record {
        owner_id = account_id;
        name = file_name;
        type = file_type;
        file_id = id;
        extension = ext;
        parent_id = parent_id;
        path = if str_eq file_type file_type_dir then [] else account_id ++ (text "/" ++ id);
        size = file_size;
        modified_on = now;
        deleted_on = none;
        upload_status = status;
        unique_hash = hash_string (account_id ∷ file_name ∷ ext ∷ parent_id ∷ []);
      }

  -- File.GenerateHash
  unfoldable pub generate_hash : File → Str
  unfolding hash_string
  generate_hash f = hash_string (f.owner_id ∷ f.name ∷ f.file_id ∷ f.parent_id ∷ [])

unfoldable pub to_file_response : File → FileResponse
to_file_response f = record {
  name = f.name;
  type = f.type;
  file_id = f.file_id;
  extension = f.extension;
  parent_id = f.parent_id;
  size = f.size;
  modified_on = f.modified_on;
  deleted_on = f.deleted_on;
  upload_status = f.upload_status;
  unique_hash = f.unique_hash;
}

unfoldable pub to_file_responses : List File → List FileResponse
to_file_responses files = map to_file_response files

-- A nil or a time
abbrev pub optional_time : Option ℕ → Arg
optional_time none = null
optional_time (some t) = time t

abbrev pub row : File → List Arg
row f =
    str f.owner_id
    ∷ str f.name
    ∷ str f.type
    ∷ str f.file_id
    ∷ str f.extension
    ∷ str f.parent_id
    ∷ str f.path
    ∷ int f.size
    ∷ time f.modified_on
    ∷ optional_time f.deleted_on
    ∷ str f.upload_status
    ∷ str f.unique_hash
    ∷ []

unfoldable pub flatten_file : List File → List Arg
flatten_file [] = []
flatten_file (f ∷ files) = row f ++ flatten_file files
