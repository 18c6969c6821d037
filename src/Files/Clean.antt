-- ===== src/Files/Clean.antt =====
-- StringClean of src/file/file.go. The text of a time, as String of time.Time gives it, is a parameter.
use local_drive.Base.{
  ℕ, suc, ◌≡◌, refl, sym, ap, ◌∙◌, Option, none, some, [], ◌∷◌, ◌++◌, Str, text, join,
}
use local_drive.Base.Int.{ℤ, pos, negsuc}
use local_drive.Base.Decimal.{show}
use local_drive.Files.{File, FileResponse, to_file_response}
use local_drive.Files.Columns.{
  column_file_name, column_file_type, column_file_id, column_file_extension, column_parent_id,
  column_file_size, column_modified_on, column_deleted_on, column_upload_status, column_unique_hash,
}

-- %v of an int64
show_size : ℤ → Str
show_size (pos n) = show n
show_size (negsuc n) = text "-" ++ show (suc n)

abbrev write : Str → Str → Str
write key val = key ++ (text "=" ++ val)

module _ (show_time : ℕ → Str) where
  show_deleted : Option ℕ → Str
  show_deleted none = text "<nil>"
  show_deleted (some t) = show_time t

  unfoldable pub string_clean : File → Str
  unfolding show_size show_deleted
  string_clean f = join (text ";") (
      write column_file_name f.name
      ∷ write column_file_type f.type
      ∷ write column_file_id f.file_id
      ∷ write column_file_extension f.extension
      ∷ write column_parent_id f.parent_id
      ∷ write column_file_size (show_size f.size)
      ∷ write column_modified_on (show_time f.modified_on)
      ∷ write column_upload_status f.upload_status
      ∷ write column_unique_hash f.unique_hash
      ∷ write column_deleted_on (show_deleted f.deleted_on)
      ∷ [])

  -- The text of a response, which has no owner and no path.
  response_clean : FileResponse → Str
  unfolding show_size show_deleted
  response_clean r = join (text ";") (
      write column_file_name r.name
      ∷ write column_file_type r.type
      ∷ write column_file_id r.file_id
      ∷ write column_file_extension r.extension
      ∷ write column_parent_id r.parent_id
      ∷ write column_file_size (show_size r.size)
      ∷ write column_modified_on (show_time r.modified_on)
      ∷ write column_upload_status r.upload_status
      ∷ write column_unique_hash r.unique_hash
      ∷ write column_deleted_on (show_deleted r.deleted_on)
      ∷ [])

  string_clean_lem : (f : File) → string_clean f ≡ response_clean (to_file_response f)
  unfolding string_clean response_clean to_file_response
  string_clean_lem f = refl

  -- StringClean tells no more than the response to the client: files with one response, whoever owns
  -- them and wherever they are stored, have one text.
  string_clean-to_file_response :
      (f g : File) → to_file_response f ≡ to_file_response g → string_clean f ≡ string_clean g
  string_clean-to_file_response f g h =
      string_clean_lem f ∙ ap response_clean h ∙ sym (string_clean_lem g)
