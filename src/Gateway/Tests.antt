-- ===== src/Gateway/Tests.antt =====
-- Witnesses of the file gateway, on a database on which every change fails: it refuses inserts, and
-- the commit of any other statement takes effect and yet reports an error.
use local_drive.Base.{
  ℕ, suc, nat_eq, if◌then◌else◌, false, refl, ◌*◌, ◌≡◌, true, none, [], ◌∷◌, Str, text, Result, ok,
  err, length, count,
}
use local_drive.Base.Int.{pos}
use local_drive.Sql.Placeholder.{str, question}
use local_drive.Sql.Insert.{build_insert, insert_into, insert_query}
use local_drive.Sql.Clause.{build_clause, equal_to, in_values, and_then}
use local_drive.Sql.Update.{update, update_where}
use local_drive.Files.{File, upload_completed, file_type_file, flatten_file}
use local_drive.Database.{Database, SqlError, sql, exec_query, other_error, Atomic}
use local_drive.Gateway.Files.{
  add_file_query, add_file, added, done, changed, counted, delete_files_query, update_file,
  update_upload_status, update_modified_files, delete_files,
}
use local_drive.Gateway.Files.Effects.{add_file_query-ok, file_gateway-Atomic}

executed : ℕ → Str → Result SqlError (ℕ × ℕ)
executed s [] = err other_error
executed s (c ∷ query) = if nat_eq c b'I' then err other_error else ok (1, suc s)

abbrev failing : Database
failing = record {
  Store = ℕ;
  query = λ s query args. ok [];
  begin_ok = λ s. true;
  execute = λ s query args. executed s query;
  commit_ok = λ s. false;
  commit_lost = λ s. true;
}

abbrev notes : File
notes = record {
  owner_id = text "acc";
  name = text "notes";
  type = file_type_file;
  file_id = text "id-1";
  extension = text "txt";
  parent_id = text "root";
  path = text "acc/id-1";
  size = pos 12;
  modified_on = 1000;
  deleted_on = none;
  upload_status = upload_completed;
  unique_hash = text "h";
}

add_file_query-ok_example :
    (q : Str) × (add_file_query (notes ∷ notes ∷ []) ≡ ok (q, flatten_file (notes ∷ notes ∷ [])))
    × (count question q ≡ 12 * length (notes ∷ notes ∷ []))
add_file_query-ok_example = add_file_query-ok notes (notes ∷ [])

refused_test : (add_file failing 5 (notes ∷ [])).1 ≡ 5
unfolding add_file added done exec_query text add_file_query executed build_insert insert_into
    insert_query flatten_file local_drive.Sql.Clause.query_builder_build local_drive.Base.join
refused_test = refl

lost_test : delete_files failing 1000 5 (text "acc") (text "id-1" ∷ []) ≡ (err sql, 6)
unfolding delete_files changed counted exec_query text executed delete_files_query build_clause
    equal_to and_then in_values update update_where local_drive.Sql.Clause.build_condition_string
    local_drive.Sql.Clause.parts local_drive.Sql.Clause.add_new_node local_drive.Sql.Clause.set_last
    local_drive.Sql.Clause.new_condition_clause local_drive.Sql.Node.build_query
    local_drive.Sql.Node.new_condition_node local_drive.Sql.Update.build_update
    local_drive.Sql.Clause.query_builder_build local_drive.Base.join
    local_drive.Sql.Update.update_query
lost_test = refl

file_gateway-Atomic_example :
    Atomic failing 5 (add_file failing 5 (notes ∷ []))
    × Atomic failing 5
        (update_file failing 1000 5 (text "acc") (text "id-1") (text "FileName") (str (text "x")))
    × Atomic failing 5 (update_upload_status failing 5 (text "acc") (text "id-1") upload_completed)
    × Atomic failing 5 (update_modified_files failing 1000 5 (text "acc") (text "id-1" ∷ []))
    × Atomic failing 5 (delete_files failing 1000 5 (text "acc") (text "id-1" ∷ []))
file_gateway-Atomic_example =
    file_gateway-Atomic failing 1000 5 (text "acc") (text "id-1") (text "FileName")
      (text "id-1" ∷ []) (str (text "x")) upload_completed (notes ∷ [])
