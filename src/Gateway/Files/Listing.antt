-- ===== src/Gateway/Files/Listing.antt =====
-- The methods of FileGateway (src/db_gateway/file_gateway.go) that select files through SQL text of
-- their own.
pub mod Isolation
use local_drive.Base.{
  ℕ, Bool, true, false, Option, none, some, List, [], ◌∷◌, Str, text, join, concat, Result, ok, err,
  if◌then◌else◌,
}
use local_drive.Base.Int.{ℤ, pos, z_eq}
use local_drive.Base.Spaces.{is_empty}
use local_drive.Sql.Placeholder.{Arg, str, int, time, null}
use local_drive.Files.{File, FileResponse, file_type_dir}
use local_drive.Gateway.Files.Queries.{
  get_all_files_query, get_deleted_files_query, count_query, children_query, breadcrumbs_query,
}
use local_drive.Files.Flatten.{scan_all}
use local_drive.Database.Rows.{select_rows, select_row}
use local_drive.Database.{
  Database, SqlError, GatewayError, sql, file_does_not_exist, driver, parsing,
}

response_of : Str → Str → Str → Str → Str → ℤ → ℕ → Option ℕ → Str → Str → FileResponse
response_of name type file_id extension parent_id size modified_on deleted_on status hash = record {
  name = name;
  type = type;
  file_id = file_id;
  extension = extension;
  parent_id = parent_id;
  size = size;
  modified_on = modified_on;
  deleted_on = deleted_on;
  upload_status = status;
  unique_hash = hash;
}

unfoldable pub scan_response : List Arg → Option FileResponse
unfolding response_of
scan_response (str n ∷ str t ∷ str f ∷ str e ∷ str p ∷ int z ∷ time m ∷ null ∷ str s ∷ str h ∷ []) =
    some (response_of n t f e p z m none s h)
scan_response
      (str n ∷ str t ∷ str f ∷ str e ∷ str p ∷ int z ∷ time m ∷ time d ∷ str s ∷ str h ∷ []) =
    some (response_of n t f e p z m (some d) s h)
scan_response _ = none

-- BreadcrumbFile of src/db_gateway/types.go
pub record BreadcrumbFile : Type 0 where
  pub file_id : Str
  pub parent_id : Str
  pub name : Str

unfoldable pub scan_breadcrumb : List Arg → Option BreadcrumbFile
scan_breadcrumb (str file_id ∷ str parent_id ∷ str name ∷ []) =
    some (record { file_id = file_id; parent_id = parent_id; name = name })
scan_breadcrumb _ = none

unfoldable pub scan_count : List Arg → Option ℤ
scan_count (int n ∷ []) = some n
scan_count _ = none

-- slices.Reverse
unfoldable pub reverse_onto {ℓ} : {A : Type ℓ} → List A → List A → List A
reverse_onto [] out = out
reverse_onto (x ∷ xs) out = reverse_onto xs (x ∷ out)

unfoldable pub or_sql {ℓ} : {A : Type ℓ} → Option A → Result GatewayError A
or_sql none = err sql
or_sql (some a) = ok a

responses : Result SqlError (List (List Arg)) → Result GatewayError (List FileResponse)
unfolding or_sql
responses (err e) = err sql
responses (ok rows) = or_sql (select_rows scan_response rows)

unfoldable pub crumbs : Option (List BreadcrumbFile) → Result GatewayError (List BreadcrumbFile)
crumbs none = err parsing
crumbs (some files) = ok (reverse_onto files [])

-- A count of 0 rows leaves the counter 0.
exists_of : Result SqlError (List (List Arg)) → Result GatewayError Bool
exists_of (err e) = err sql
exists_of (ok rows) = elim (select_row scan_count (pos 0) rows) [
  | none ↦ err sql
  | some n ↦ ok (if z_eq n (pos 0) then false else true)
]

children_of : Result SqlError (List (List Arg)) → Result GatewayError (List File)
unfolding or_sql
children_of (err e) = err sql
children_of (ok rows) = or_sql (scan_all rows)

unfoldable pub crumbs_of :
    Result SqlError (List (List Arg)) → Result GatewayError (List BreadcrumbFile)
unfolding crumbs
crumbs_of (err e) = err (driver e)
crumbs_of (ok rows) = crumbs (select_rows scan_breadcrumb rows)

module _ (db : Database) where
  open db use {Store, query}

  unfoldable pub get_all_files : Store → Str → Result GatewayError (List FileResponse)
  unfolding responses
  get_all_files s owner = responses (query s get_all_files_query (str owner ∷ []))

  unfoldable pub get_deleted_files : Store → Str → Result GatewayError (List FileResponse)
  unfolding responses
  get_deleted_files s owner = responses (query s get_deleted_files_query (str owner ∷ []))

  unfoldable pub validate_file_exists : Store → Str → Str → Result GatewayError Bool
  unfolding exists_of
  validate_file_exists s account file_id =
      exists_of (query s count_query (str account ∷ str file_id ∷ []))

  children : Store → Str → Str → Result GatewayError (List File)
  unfolding children_of
  children s account parent = children_of (query s children_query (str account ∷ str parent ∷ []))

  -- After the check of a parent that is not the root.
  unfoldable pub children_of_valid :
      Store → Str → Str → Result GatewayError Bool → Result GatewayError (List File)
  unfolding children
  children_of_valid s account parent (err e) = err e
  children_of_valid s account parent (ok false) = err file_does_not_exist
  children_of_valid s account parent (ok true) = children s account parent

  unfoldable pub get_files_by_account_id_and_parent_id :
      Store → Str → Str → Result GatewayError (List File)
  unfolding children_of_valid children
  get_files_by_account_id_and_parent_id s account parent =
      if is_empty parent
      then children s account parent
      else children_of_valid s account parent (validate_file_exists s account parent)

  unfoldable pub get_breadcrumbs : Store → Str → Str → Result GatewayError (List BreadcrumbFile)
  unfolding crumbs_of
  get_breadcrumbs s account folder_id =
      crumbs_of (query s breadcrumbs_query (str folder_id ∷ str account ∷ str file_type_dir ∷ []))
