-- ===== src/Files/Tests.antt =====
-- Witnesses of the rows of files.
use local_drive.Base.{◌≡◌, some, [], ◌∷◌, ◌++◌, map, Str, text}
use local_drive.Base.Int.{pos}
use local_drive.Files.{File, new_file, row, file_type_file, upload_pending}
use local_drive.Files.Flatten.{scan_all, scan_all-rows}

-- A function in the place of SHA-256.
abbrev reversed : Str → Str
reversed [] = []
reversed (c ∷ s) = reversed s ++ (c ∷ [])

abbrev report : File
report =
    new_file reversed (text "id-1") 1000 (text "acc") (text "report") file_type_file (text ".pdf")
      (pos 20) (text "root") upload_pending

abbrev trashed : File
trashed = record report { deleted_on = some 2000 }

scan_all-rows_example : scan_all (map row (report ∷ trashed ∷ [])) ≡ some (report ∷ trashed ∷ [])
scan_all-rows_example = scan_all-rows (report ∷ trashed ∷ [])
