-- ===== src/Handlers.antt =====
-- The handlers of src/api, the middleware around them and the routes of src/app.go, over one database.
pub mod Reads
pub mod Writes
pub mod Accounts
pub mod Middleware
pub mod Routes
pub mod Access
pub mod Sessions
pub mod Strangers
pub mod Registration
pub mod RoundTrip
pub mod Isolation
pub mod Tests
use local_drive.Base.{ℕ, Bool, true, false, List, Str}
use local_drive.Api.{Output, Reply, success, internal_server_error}
use local_drive.Hasher.Compare.{Argon2, Random}
use local_drive.Database.{Database}
use local_drive.Gateway.Files.{add_file, update_file, update_upload_status}
use local_drive.Upload.{FileGateway}

-- What the program calls of other packages: SHA-256, filepath.Join, strings.ToLower, uuid.Validate,
-- url.PathEscape and Argon2id; and the directories of its configuration.
pub record Environment : Type 1 where
  pub db : Database
  pub sha256 : Str → Str
  pub join_path : List Str → Str
  pub to_lower : Str → Str
  pub is_uuid : Str → Bool
  pub path_escape : Str → Str
  pub argon : Argon2
  pub storage : Str
  pub temp : Str

-- The file gateway that the handlers of the uploads are given.
abbrev pub file_gateway : Database → FileGateway
file_gateway db = record {
  Store = db.Store;
  add_file = add_file db;
  update_file = update_file db;
  update_upload_status = update_upload_status db;
}

-- A response that cannot be written is answered with an error.
unfoldable pub responded : (response_fails : Bool) → Output → Reply
responded true output = internal_server_error
responded false output = success output
