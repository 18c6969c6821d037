-- ===== src/Gateway/Files/Listing/Isolation.antt =====
-- What the methods that read files ask of the database: each query has the account among its arguments.
use local_drive.Base.{
  ◌≡◌, refl, sym, ap, ◌∙◌, ◌⊎◌, inl, inr, Bool, true, false, List, [], ◌∷◌, Str, Result, ok, err,
  count, text, if◌then◌else◌,
}
use local_drive.Base.Spaces.{is_empty}
use local_drive.Sql.Placeholder.{Arg, str}
use local_drive.Sql.Calls.{equal_to, and_then, call, calls}
use local_drive.Sql.Built.{select-build_clause}
use local_drive.Files.{file_type_dir}
use local_drive.Files.Columns.{table_name, column_file_owner_id, column_file_id}
use local_drive.Database.{sql, Database, SqlError, GatewayError}
use local_drive.Gateway.Files.{get_file_query, of_file, get_file, selected, firsts, rows_or_sql}
use local_drive.Gateway.Files.Queries.{
  get_deleted_files_query, count_query, children_query, breadcrumbs_query,
}
use local_drive.Gateway.Files.Listing.{
  get_deleted_files, validate_file_exists, children, children_of_valid,
  get_files_by_account_id_and_parent_id, get_breadcrumbs, responses, exists_of, children_of,
  crumbs_of,
}

abbrev pub Has : Arg → List Arg → Type 0
Has a [] = ⊥
Has a (b ∷ args) = (b ≡ a) ⊎ Has a args

abbrev pub Query : Database → Type 0
Query db = db.Store → Str → List Arg → Result SqlError (List (List Arg))

-- The database with another answer to queries.
abbrev pub answering_by : (db : Database) → Query db → Database
answering_by db query = record db { query = query }

get_file_query-ok :
    (owner id : Str) → (q : Str) × (get_file_query owner id ≡ ok (q, str owner ∷ str id ∷ []))
unfolding get_file_query of_file call calls count text
get_file_query-ok owner id =
    let (q, e, n) =
      select-build_clause table_name []
        (equal_to column_file_owner_id (str owner)
          ∷ and_then
          ∷ equal_to column_file_id (str id)
          ∷ [])
        refl refl (refl, (tt, (refl, tt))) in
    (q, e)

-- Both answer alike where an account is among the arguments.
module _ (db : Database) (query : Query db) (account : Str)
    (same : (s : db.Store) (q : Str) (args : List Arg)
      → Has (str account) args
      → query s q args ≡ db.query s q args) where
  pub get_deleted_files-answering_by :
      (s : db.Store)
      → get_deleted_files (answering_by db query) s account ≡ get_deleted_files db s account
  unfolding get_deleted_files
  get_deleted_files-answering_by s =
      ap responses (same s get_deleted_files_query (str account ∷ []) (inl refl))

  children-answering_by :
      (s : db.Store) (parent : Str)
      → children (answering_by db query) s account parent ≡ children db s account parent
  unfolding children
  children-answering_by s parent =
      ap children_of (same s children_query (str account ∷ str parent ∷ []) (inl refl))

  children_of_valid-answering_by :
      (s : db.Store) (parent : Str) (valid : Result GatewayError Bool)
      → children_of_valid (answering_by db query) s account parent valid
        ≡ children_of_valid db s account parent valid
  unfolding children_of_valid
  children_of_valid-answering_by s parent (err e) = refl
  children_of_valid-answering_by s parent (ok false) = refl
  children_of_valid-answering_by s parent (ok true) = children-answering_by s parent

  pub get_files_by_parent-answering_by :
      (s : db.Store) (parent : Str)
      → get_files_by_account_id_and_parent_id (answering_by db query) s account parent
        ≡ get_files_by_account_id_and_parent_id db s account parent
  unfolding get_files_by_account_id_and_parent_id validate_file_exists
  get_files_by_parent-answering_by s parent =
      ap
        (λ r.
          if is_empty parent
          then r
          else children_of_valid (answering_by db query) s account parent
              (exists_of (query s count_query (str account ∷ str parent ∷ []))))
        (children-answering_by s parent)
      ∙ ap (λ r. if is_empty parent then children db s account parent else r)
          (children_of_valid-answering_by s parent
              (exists_of (query s count_query (str account ∷ str parent ∷ [])))
            ∙ ap (λ rows. children_of_valid db s account parent (exists_of rows))
                (same s count_query (str account ∷ str parent ∷ []) (inl refl)))

  pub get_breadcrumbs-answering_by :
      (s : db.Store) (folder_id : Str)
      → get_breadcrumbs (answering_by db query) s account folder_id
        ≡ get_breadcrumbs db s account folder_id
  unfolding get_breadcrumbs
  get_breadcrumbs-answering_by s folder_id = ap crumbs_of (
      same s breadcrumbs_query (str folder_id ∷ str account ∷ str file_type_dir ∷ [])
        (inr (inl refl)))

  pub get_file-answering_by :
      (s : db.Store) (file_id : Str)
      → get_file (answering_by db query) s account file_id ≡ get_file db s account file_id
  unfolding get_file selected
  get_file-answering_by s file_id =
      let (q, e) = get_file_query-ok account file_id in
      ap (λ b. firsts (selected (answering_by db query) sql s b)) e
      ∙ ap (λ rows. firsts (rows_or_sql sql rows))
          (same s q (str account ∷ str file_id ∷ []) (inl refl))
      ∙ sym (ap (λ b. firsts (selected db sql s b)) e)
