-- ===== src/Gateway/Files/Effects.antt =====
-- What the methods of the file gateway do to the database, on every outcome.
use local_drive.Base.{
  ℕ, ◌*◌, ◌≡◌, refl, inl, inr, List, [], ◌∷◌, Str, text, count, count_all, Result, ok, err, length,
  arith,
}
use local_drive.Sql.Placeholder.{Arg, question}
use local_drive.Sql.Node.{BuildError}
use local_drive.Sql.Built.{build_insert-Inserts}
use local_drive.Files.{File, UploadStatus, flatten_file}
use local_drive.Files.Columns.{table_name}
use local_drive.Files.Flatten.{length-flatten_file}
use local_drive.Database.{Database, GatewayError, exec_query, Atomic, exec_query-Atomic}
use local_drive.Gateway.Files.{
  add_file_columns, add_file_query, changed, counted, done, added, add_file, update_file,
  update_upload_status, update_modified_files, delete_files, update_file_query,
  update_upload_status_query, update_modified_query,
}

-- The insert of one or more files always builds, with their rows as its arguments and a
-- placeholder for each value.
pub add_file_query-ok :
    (f : File) (fs : List File)
    → (q : Str) × (add_file_query (f ∷ fs) ≡ ok (q, flatten_file (f ∷ fs)))
      × (count question q ≡ 12 * length (f ∷ fs))
unfolding add_file_query
add_file_query-ok f fs =
    elim (build_insert-Inserts table_name add_file_columns (flatten_file (f ∷ fs)) no_question
      no_questions) [
        | inl (odd, _) ↦ absurd (odd (omega (arith, length-flatten_file (f ∷ fs))))
        | inr (_, (q, e, n)) ↦ (q, e, ground (arith, n, length-flatten_file (f ∷ fs)))
      ]
  where
    no_question : count question table_name ≡ 0
    no_question = unfold text count in refl

    no_questions : count_all question add_file_columns ≡ 0
    no_questions = unfold text count in refl

module _ (db : Database) where
  counted-Atomic :
      (s : db.Store) (r : Result GatewayError ℕ × db.Store)
      → Atomic db s r
      → Atomic db s (counted db s r)
  unfolding counted
  counted-Atomic s (ok n, s') h = tt
  counted-Atomic s (err e, s') h = h

  done-Atomic :
      (s : db.Store) (r : Result GatewayError ℕ × db.Store)
      → Atomic db s r
      → Atomic db s (done db r)
  unfolding done
  done-Atomic s (ok n, s') h = tt
  done-Atomic s (err e, s') h = h

  changed-Atomic :
      (s : db.Store) (r : Result BuildError (Str × List Arg)) → Atomic db s (changed db s r)
  unfolding changed
  changed-Atomic s (err e) = inl refl
  changed-Atomic s (ok (q, args)) =
      counted-Atomic s (exec_query db s q args) (exec_query-Atomic db s q args)

  added-Atomic :
      (s : db.Store) (r : Result BuildError (Str × List Arg)) → Atomic db s (added db s r)
  unfolding added
  added-Atomic s (err e) = inl refl
  added-Atomic s (ok (q, args)) =
      done-Atomic s (exec_query db s q args) (exec_query-Atomic db s q args)

  add_file-Atomic : (s : db.Store) (fs : List File) → Atomic db s (add_file db s fs)
  unfolding add_file
  add_file-Atomic s [] = inl refl
  add_file-Atomic s (f ∷ fs) = added-Atomic s (add_file_query (f ∷ fs))

  update_file-Atomic :
      (now : ℕ) (s : db.Store) (owner id column : Str) (arg : Arg)
      → Atomic db s (update_file db now s owner id column arg)
  unfolding update_file
  update_file-Atomic now s owner id column arg =
      done-Atomic s _ (changed-Atomic s (update_file_query now owner id column arg))

  update_upload_status-Atomic :
      (s : db.Store) (owner id : Str) (status : UploadStatus)
      → Atomic db s (update_upload_status db s owner id status)
  unfolding update_upload_status
  update_upload_status-Atomic s owner id status =
      done-Atomic s _ (changed-Atomic s (update_upload_status_query owner id status))

  delete_files-Atomic :
      (now : ℕ) (s : db.Store) (owner : Str) (ids : List Str)
      → Atomic db s (delete_files db now s owner ids)
  unfolding delete_files
  delete_files-Atomic now s owner [] = inl refl
  delete_files-Atomic now s owner (id ∷ ids) = changed-Atomic s _

  update_modified_files-Atomic :
      (now : ℕ) (s : db.Store) (owner : Str) (ids : List Str)
      → Atomic db s (update_modified_files db now s owner ids)
  unfolding update_modified_files
  update_modified_files-Atomic now s owner ids =
      done-Atomic s _ (changed-Atomic s (update_modified_query now owner ids))

  -- Adding files, updating a column of a file, touching and deleting files, and setting an upload
  -- status, whatever the database does: a method that returns an error leaves the content as it was, or
  -- as it is after one statement whose commit took effect and yet reported an error.
  pub file_gateway-Atomic :
      (now : ℕ) (s : db.Store) (owner id column : Str) (ids : List Str) (arg : Arg)
      (status : UploadStatus) (fs : List File)
      → Atomic db s (add_file db s fs)
        × Atomic db s (update_file db now s owner id column arg)
        × Atomic db s (update_upload_status db s owner id status)
        × Atomic db s (update_modified_files db now s owner ids)
        × Atomic db s (delete_files db now s owner ids)
  file_gateway-Atomic now s owner id column ids arg status fs = (
    add_file-Atomic s fs,
    update_file-Atomic now s owner id column arg,
    update_upload_status-Atomic s owner id status,
    update_modified_files-Atomic now s owner ids,
    delete_files-Atomic now s owner ids,
  )
