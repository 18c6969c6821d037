-- ===== src/Files/Walk/Parents.antt =====
-- The files of a walk, each with the ID of the folder that it is in.
use local_drive.Base.{
  ◌≡◌, refl, sym, ap, ◌∙◌, ◌⊎◌, inl, inr, true, false, ◌&&◌, Bool-cases, Option-cases, Option, none,
  some, List, [], ◌∷◌, ◌++◌, append_assoc, append-nil, Str, str_eq, Str-eq_iff, str_eq-false,
  Result, ok, err, find, find-insert, Str_eq, if◌then◌else◌, arith,
}
use local_drive.Files.{File}
use local_drive.Files.Walk.{
  Visit, Walked, or_empty, walked_file, with_folder, add_visit, walk_func, walk_all, files_of, walk,
  read,
}

-- The ID of the first folder among the visits with a path.
abbrev pub folder_id : Str → List Visit → Option Str
folder_id path [] = none
folder_id path (v ∷ vs) = if v.is_dir && str_eq v.path path then some v.id else folder_id path vs

folder_id-append :
    (path : Str) (seen vs : List Visit)
    → folder_id path (seen ++ vs)
      ≡ elim (folder_id path seen) [ none ↦ folder_id path vs | some id ↦ some id ]
folder_id-append path [] vs = refl
folder_id-append path (v ∷ seen) vs = ground (arith, folder_id-append path seen vs)

-- The first error of the visits.
abbrev pub first_error : List Visit → Option Str
first_error [] = none
first_error (v ∷ vs) = elim v.error [ none ↦ first_error vs | some e ↦ some e ]

-- The first error, or the files.
abbrev pub error_or : Option Str → List File → Result Str (List File)
error_or none fs = ok fs
error_or (some e) fs = err e

module _ (sha256 base dir ext : Str → Str) (root : Str) where
  -- The ID of the folder that a visited path is in: none for the root.
  abbrev pub parent_of : List Visit → Visit → Str
  parent_of visits v =
      if str_eq root (dir v.path) then [] else or_empty (folder_id (dir v.path) visits)

  -- The visits of `vs` but the root, as files with the IDs that `visits` give their folders.
  abbrev pub listed : List Visit → List Visit → List File
  listed visits [] = []
  listed visits (v ∷ vs) =
      if str_eq v.path root
      then listed visits vs
      else walked_file sha256 base dir ext root v (parent_of visits v) ∷ listed visits vs

  -- Each path lies in the root or in a folder that was visited before it.
  abbrev pub FoldersFirst : List Visit → List Visit → Type 0
  FoldersFirst seen [] = Unit
  FoldersFirst seen (v ∷ vs) =
      ((v.path ≡ root)
        ⊎ ((dir v.path ≡ root) ⊎ ((id : Str) × (folder_id (dir v.path) seen ≡ some id))))
      × FoldersFirst (seen ++ (v ∷ [])) vs

  -- The map of the folders after some visits.
  abbrev IsMapOf : List Visit → List (Str × Str) → Type 0
  IsMapOf seen folders =
      (path : Str) → find path folders ≡ (if str_eq root path then some [] else folder_id path seen)

  IsMapOf-with_folder :
      (v : Visit) (seen : List Visit) (folders : List (Str × Str))
      → str_eq v.path root ≡ false
      → IsMapOf seen folders
      → IsMapOf (seen ++ (v ∷ [])) (with_folder sha256 base dir ext root v folders)
  unfolding with_folder
  IsMapOf-with_folder v seen folders other h path = ground (
    arith,
    h path,
    h v.path,
    folder_id-append path seen (v ∷ []),
    find-insert v.path path v.id folders,
    Str-eq_iff v.path path,
    Str-eq_iff root path,
    Str-eq_iff v.path root,
    Str-eq_iff root v.path,
  )

  IsMapOf-root :
      (v : Visit) (seen : List Visit) (folders : List (Str × Str))
      → str_eq v.path root ≡ true
      → IsMapOf seen folders
      → IsMapOf (seen ++ (v ∷ [])) folders
  IsMapOf-root v seen folders same h path = ground (
    arith,
    h path,
    folder_id-append path seen (v ∷ []),
    Str-eq_iff v.path path,
    Str-eq_iff root path,
    Str-eq_iff v.path root,
  )

  -- A path in the root, or in a folder that was visited, finds the folder's ID in the map.
  parent_found :
      (v : Visit) (seen vs : List Visit) (folders : List (Str × Str))
      → (dir v.path ≡ root) ⊎ ((id : Str) × (folder_id (dir v.path) seen ≡ some id))
      → IsMapOf (seen ++ (v ∷ [])) folders
      → or_empty (find (dir v.path) folders) ≡ parent_of (seen ++ (v ∷ vs)) v
  parent_found v seen vs folders (inl e) h =
      ground (arith, h (dir v.path), Str-eq_iff root (dir v.path))
  parent_found v seen vs folders (inr (id, e)) h = ground (
    arith,
    h (dir v.path),
    folder_id-append (dir v.path) seen (v ∷ []),
    folder_id-append (dir v.path) seen (v ∷ vs),
  )

  abbrev Rest : Walked → List Visit → List Visit → Result Str (List File)
  Rest s seen vs = error_or (first_error vs) (s.fs ++ listed (seen ++ vs) vs)

  listed-root :
      (v : Visit) (seen vs : List Visit)
      → str_eq v.path root ≡ true
      → listed (seen ++ (v ∷ vs)) (v ∷ vs) ≡ listed ((seen ++ (v ∷ [])) ++ vs) vs
  listed-root v seen vs same = simp (same, append_assoc) refl

  walk_func-err :
      (v : Visit) (s : Walked) (x : Str)
      → v.error ≡ some x
      → walk_func sha256 base dir ext root v s ≡ err x
  unfolding walk_func
  walk_func-err v s x e = ground arith

  walk_func-root :
      (v : Visit) (s : Walked)
      → v.error ≡ none
      → str_eq v.path root ≡ true
      → walk_func sha256 base dir ext root v s ≡ ok s
  unfolding walk_func
  walk_func-root v s e same = ground arith

  walk_func-other :
      (v : Visit) (s : Walked)
      → v.error ≡ none
      → str_eq v.path root ≡ false
      → walk_func sha256 base dir ext root v s ≡ ok (add_visit sha256 base dir ext root v s)
  unfolding walk_func
  walk_func-other v s e other = ground arith

  Rest-other :
      (v : Visit) (seen vs : List Visit) (s : Walked)
      → FoldersFirst seen (v ∷ vs)
      → v.error ≡ none
      → str_eq v.path root ≡ false
      → IsMapOf (seen ++ (v ∷ [])) (add_visit sha256 base dir ext root v s).folder_id_map
      → Rest (add_visit sha256 base dir ext root v s) (seen ++ (v ∷ [])) vs ≡ Rest s seen (v ∷ vs)
  unfolding add_visit
  Rest-other v seen vs s (inl same, hs) e other m = absurd (str_eq-false v.path root other same)
  Rest-other v seen vs s (inr near, hs) e other m =
      simp (e, other, append_assoc, parent_found v seen vs _ near m) refl

  walk_all-listed :
      (vs seen : List Visit) (s : Walked)
      → FoldersFirst seen vs
      → IsMapOf seen s.folder_id_map
      → files_of sha256 base dir ext root (walk_all sha256 base dir ext root vs s) ≡ Rest s seen vs
  unfolding walk_all walk_func files_of
  walk_all-listed [] seen s h m = ap ok (sym (append-nil s.fs))
  walk_all-listed (v ∷ vs) seen s (h, hs) m = elim (Option-cases v.error) [
    | inr (x, e) ↦ rw (walk_func-err v s x e) (simp e refl)
    | inl e ↦ elim (Bool-cases (str_eq v.path root)) [
      | inl same ↦ rw (walk_func-root v s e same) (
          walk_all-listed vs (seen ++ (v ∷ [])) s hs (IsMapOf-root v seen s.folder_id_map same m)
          ∙ simp (e, same, append_assoc) refl)
      | inr other ↦
          let m' = IsMapOf-with_folder v seen s.folder_id_map other m in
          rw (walk_func-other v s e other) (
            walk_all-listed vs (seen ++ (v ∷ [])) (add_visit sha256 base dir ext root v s) hs m'
            ∙ Rest-other v seen vs s (h, hs) e other m')
    ]
  ]

  -- Where each path that is visited lies in the root, or in a folder that is visited before it: Read
  -- returns the first error, or in the order of the visits a file for each but the root, with the ID
  -- of the first visited folder with the path that it is in as its parent, and no parent in the root.
  pub read-listed :
      (visits : List Visit)
      → FoldersFirst [] visits
      → read sha256 base dir ext root visits ≡ error_or (first_error visits) (listed visits visits)
  unfolding read walk find
  read-listed visits h =
      ap same (walk_all-listed visits [] start h λ path. ground arith)
      ∙ same_error_or (first_error visits) (listed visits visits)
    where
      start : Walked
      start = record { folder_id_map = (root, []) ∷ []; fs = [] }

      same : Result Str (List File) → Result Str (List File)
      same r = elim r [ err e ↦ err e | ok fs ↦ ok fs ]

      same_error_or : (o : Option Str) (fs : List File) → same (error_or o fs) ≡ error_or o fs
      same_error_or none fs = refl
      same_error_or (some e) fs = refl
