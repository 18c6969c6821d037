-- ===== src/Files/Flatten.antt =====
-- The rows that files are stored as, read back.
use local_drive.Base.{
  ℕ, ◌*◌, ◌≡◌, refl, ◌∙◌, Option, none, some, List, [], ◌∷◌, map, length, length-append, arith,
}
use local_drive.Sql.Placeholder.{Arg, str, int, time, null}
use local_drive.Files.{File, row, flatten_file}

-- One scan of `getFiles` (src/db_gateway/file_gateway.go): the twelve columns, in their order.
scan_time : Arg → Option (Option ℕ)
scan_time null = some none
scan_time (time t) = some (some t)
scan_time _ = none

with_deleted : File → Option (Option ℕ) → Option File
with_deleted f none = none
with_deleted f (some d) = some (record f { deleted_on = d })

-- `none` where a value does not fit its field.
unfoldable pub scan : List Arg → Option File
unfolding scan_time with_deleted
scan
      (str owner_id
        ∷ str name
        ∷ str type
        ∷ str file_id
        ∷ str extension
        ∷ str parent_id
        ∷ str path
        ∷ int size
        ∷ time modified_on
        ∷ deleted_on
        ∷ str upload_status
        ∷ str unique_hash
        ∷ []) =
    with_deleted
      (record {
        owner_id = owner_id;
        name = name;
        type = type;
        file_id = file_id;
        extension = extension;
        parent_id = parent_id;
        path = path;
        size = size;
        modified_on = modified_on;
        deleted_on = none;
        upload_status = upload_status;
        unique_hash = unique_hash;
      })
      (scan_time deleted_on)
scan _ = none

prepended : Option File → Option (List File) → Option (List File)
prepended none fs = none
prepended (some f) none = none
prepended (some f) (some fs) = some (f ∷ fs)

unfoldable pub scan_all : List (List Arg) → Option (List File)
unfolding prepended
scan_all [] = some []
scan_all (r ∷ rows) = prepended (scan r) (scan_all rows)

scan-row : (f : File) → scan (row f) ≡ some f
unfolding scan
scan-row f = by_time f f.deleted_on refl
  where
    by_time : (f : File) (d : Option ℕ) → f.deleted_on ≡ d → scan (row f) ≡ some f
    by_time f none e = rw e refl
    by_time f (some t) e = rw e refl

-- The rows that are sent for files, one after the other, are scanned back as those files, in order.
pub scan_all-rows : (fs : List File) → scan_all (map row fs) ≡ some fs
unfolding scan_all
scan_all-rows [] = refl
scan_all-rows (f ∷ fs) = rw (scan-row f, scan_all-rows fs)

-- Twelve values for each file.
pub length-flatten_file : (fs : List File) → length (flatten_file fs) ≡ 12 * length fs
unfolding flatten_file
length-flatten_file [] = refl
length-flatten_file (f ∷ fs) =
    length-append (row f) (flatten_file fs) ∙ omega (arith, length-flatten_file fs)
