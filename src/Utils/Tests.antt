-- ===== src/Utils/Tests.antt =====
-- Witness of RemoveDuplicates, on names of which two are the same.
use local_drive.Base.{◌≡◌, List, [], ◌∷◌, Str, text, Str_eq}
use local_drive.Utils.{remove_duplicates}
use local_drive.Utils.Duplicates.{contains, firsts, IsDistinct, remove_duplicates-firsts}

abbrev names : List Str
names = text "ada" ∷ text "bob" ∷ text "ada" ∷ []

remove_duplicates-firsts_example :
    (remove_duplicates names ≡ firsts [] names)
    × IsDistinct (remove_duplicates names)
    × ((v : Str) → contains v (remove_duplicates names) ≡ contains v names)
remove_duplicates-firsts_example = remove_duplicates-firsts names
