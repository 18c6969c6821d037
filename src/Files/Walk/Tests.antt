-- ===== src/Files/Walk/Tests.antt =====
-- Witnesses of the walk: a root with a folder that has a file, and a file beside the folder.
use local_drive.Base.{
  ◌≡◌, refl, Bool, true, false, Option, none, some, inl, inr, List, [], ◌∷◌, Str, text, str_eq,
  nat_eq, map, if◌then◌else◌,
}
use local_drive.Base.Int.{pos}
use local_drive.Files.{File, new_file}
use local_drive.Files.Walk.{Visit, or_empty, read, walked_file}
use local_drive.Files.Walk.Parents.{first_error, error_or, listed, FoldersFirst, read-listed}

-- What stands before the last slash.
before_slash : Str → Option Str
before_slash [] = none
before_slash (c ∷ s) = elim (before_slash s) [
  | some t ↦ some (c ∷ t)
  | none ↦ if nat_eq c b'/' then some [] else none
]

abbrev dir : Str → Str
dir path = or_empty (before_slash path)

abbrev as_is : Str → Str
as_is s = s

abbrev no_ext : Str → Str
no_ext s = []

abbrev visit : Str → Str → Bool → Str → Visit
visit path name is_dir id = record {
  path = path;
  name = name;
  is_dir = is_dir;
  size = pos 5;
  error = none;
  id = id;
  generated_id = text "unused";
  now = 1000;
}

abbrev visits : List Visit
visits =
    visit (text "acc") (text "acc") true (text "i0")
    ∷ visit (text "acc/docs") (text "docs") true (text "i1")
    ∷ visit (text "acc/docs/a") (text "a") false (text "i2")
    ∷ visit (text "acc/zoo") (text "zoo") false (text "i3")
    ∷ []

FoldersFirst-visits : FoldersFirst as_is as_is dir no_ext (text "acc") [] visits
unfolding before_slash text str_eq
FoldersFirst-visits =
    (inl refl, (inr (inl refl), (inr (inr (text "i1", refl)), (inr (inl refl), tt))))

read-listed_example :
    read as_is as_is dir no_ext (text "acc") visits
    ≡ error_or (first_error visits) (listed as_is as_is dir no_ext (text "acc") visits visits)
read-listed_example = read-listed as_is as_is dir no_ext (text "acc") visits FoldersFirst-visits

parents_test :
    map (λ (f : File). f.parent_id) (listed as_is as_is dir no_ext (text "acc") visits visits)
    ≡ [] ∷ text "i1" ∷ [] ∷ []
unfolding before_slash text str_eq walked_file new_file
parents_test = refl
