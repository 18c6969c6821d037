-- ===== src/Config/Search.antt =====
-- What the search for the configuration finds.
use local_drive.Base.{
  ◌≡◌, refl, sym, ap, ◌∙◌, ◌↔◌, true, false, Option, none, some, List, [], ◌∷◌, ◌++◌, Str, ok, find,
  insert, find-insert, str_eq, Str-eq_iff, ◌⊎◌, Str_eq, All, Option-cases, Bool-cases, inl, inr,
  arith,
}
use local_drive.Base.Spaces.{is_empty}
use local_drive.Config.{is_extension, add_files, get_files, file_of, search, searched, get_config}

is_extension-filled : (ext : Str) → is_extension ext ≡ true → is_empty ext ≡ false
unfolding is_extension
is_extension-filled [] h = cc
is_extension-filled (c ∷ s) h = refl

module _ (to_lower : Str → Str) (join_path : List Str → Str) (config : Str)
    (files : List (Str × Str)) where
  -- An extension that is well written, and of no file.
  abbrev pub IsMissing : Str → Type 0
  IsMissing ext = (is_extension ext ≡ true) × (file_of to_lower join_path config files ext ≡ none)

  -- The path of the file of the first extension that has one.
  abbrev pub IsFirst : List Str → Str → Type 0
  IsFirst exts path =
      (before : List Str) × (ext : Str) × (after : List Str) × (exts ≡ before ++ (ext ∷ after))
      × All IsMissing before
      × (is_extension ext ≡ true)
      × (file_of to_lower join_path config files ext ≡ some path)

  search-found :
      (ext : Str) (exts : List Str) (path : Str)
      → is_extension ext ≡ true
      → file_of to_lower join_path config files ext ≡ some path
      → search to_lower join_path config files (ext ∷ exts) ≡ ok path
  unfolding search
  search-found ext exts path h e = rw (is_extension-filled ext h, h, e) refl

  search-missing :
      (ext : Str) (exts : List Str)
      → IsMissing ext
      → search to_lower join_path config files (ext ∷ exts)
        ≡ search to_lower join_path config files exts
  unfolding search
  search-missing ext exts (h, e) = rw (is_extension-filled ext h, h, e) refl

  search-IsFirst :
      (before : List Str) (ext : Str) (after : List Str) (path : Str)
      → All IsMissing before
      → is_extension ext ≡ true
      → file_of to_lower join_path config files ext ≡ some path
      → search to_lower join_path config files (before ++ (ext ∷ after)) ≡ ok path
  search-IsFirst [] ext after path h k e = search-found ext after path k e
  search-IsFirst (missing ∷ before) ext after path (m, h) k e =
      search-missing missing (before ++ (ext ∷ after)) m
      ∙ search-IsFirst before ext after path h k e

  search-good :
      (ext : Str) (exts : List Str) (path : Str)
      → search to_lower join_path config files (ext ∷ exts) ≡ ok path
      → is_extension ext ≡ true
  unfolding search
  search-good ext exts path h = ground arith

  IsFirst-search :
      (exts : List Str) (path : Str)
      → search to_lower join_path config files exts ≡ ok path
      → IsFirst exts path
  unfolding search
  IsFirst-search [] path h = cc
  IsFirst-search (ext ∷ exts) path h =
      let good = search-good ext exts path h in
      elim (Option-cases (file_of to_lower join_path config files ext)) [
        | inl e ↦
            let (before, x, after, same, missing, k, found) =
              IsFirst-search exts path (sym (search-missing ext exts (good, e)) ∙ h) in
            (ext ∷ before, x, after, ap (λ l. ext ∷ l) same, ((good, e), missing), k, found)
        | inr (p, e) ↦
            let same : p ≡ path = cc (h, search-found ext exts p good e) in
            ([], ext, exts, refl, tt, good, e ∙ ap some same)
      ]

  search_iff :
      (exts : List Str) (path : Str)
      → (search to_lower join_path config files exts ≡ ok path) ↔ IsFirst exts path
  search_iff exts path = (
    IsFirst-search exts path,
    λ h.
        let (before, ext, after, same, missing, good, found) = h in
        ap (search to_lower join_path config files) same
        ∙ search-IsFirst before ext after path missing good found,
  )

-- A file under a name is an entry of the directory with that name in lower case, or was there before.
abbrev pub IsEntry : (Str → Str) → (List Str → Str) → Str → Str → Str → List Str → Type 0
IsEntry to_lower join_path root key path [] = ⊥
IsEntry to_lower join_path root key path (name ∷ names) =
    ((to_lower name ≡ key) × (join_path (root ∷ name ∷ []) ≡ path))
    ⊎ IsEntry to_lower join_path root key path names

module _ (to_lower : Str → Str) (join_path : List Str → Str) (root : Str) where
  inserted-IsEntry :
      (name : Str) (names : List Str) (files : List (Str × Str)) (key path : Str)
      → find key (insert (to_lower name) (join_path (root ∷ name ∷ [])) files) ≡ some path
      → IsEntry to_lower join_path root key path (name ∷ names) ⊎ (find key files ≡ some path)
  inserted-IsEntry name names files key path h =
      let same = Str-eq_iff (to_lower name) key in
      let at = find-insert (to_lower name) key (join_path (root ∷ name ∷ [])) files in
      elim (Bool-cases (str_eq (to_lower name) key)) [
        | inl e ↦ inl (inl (same.0 e, ground (arith, at)))
        | inr e ↦ inr (ground (arith, at))
      ]

  add_files-IsEntry :
      (names : List Str) (files : List (Str × Str)) (key path : Str)
      → find key (add_files to_lower join_path root names files) ≡ some path
      → IsEntry to_lower join_path root key path names ⊎ (find key files ≡ some path)
  unfolding add_files
  add_files-IsEntry [] files key path h = inr h
  add_files-IsEntry (name ∷ names) files key path h =
      let before = insert (to_lower name) (join_path (root ∷ name ∷ [])) files in
      elim (add_files-IsEntry names before key path h) [
        | inl later ↦ inl (inr later)
        | inr e ↦ inserted-IsEntry name names files key path e
      ]

  -- The directory and its entries can be read, and an extension is given. The search gives a path
  -- exactly when some extension has a file, the ones up to it are a period and more without a newline,
  -- and the ones before it have none; it gives the file of that extension.
  pub get_config_iff :
      (names : List Str) (config ext path : Str) (exts : List Str)
      → (get_config to_lower join_path (some root) (some names) config (ext ∷ exts) ≡ ok path)
        ↔ IsFirst to_lower join_path config
            (add_files to_lower join_path root names [])
            (ext ∷ exts)
            path
  unfolding get_config get_files searched
  get_config_iff names config ext path exts =
      search_iff to_lower join_path config (add_files to_lower join_path root names []) (ext ∷ exts)
        path

  find-empty : (key path : Str) → ¬ (◌≡◌ {A = Option Str} (find key []) (some path))
  unfolding find
  find-empty key path e = cc

  -- A path that the search gives is of an entry of the directory, whose name in lower case is that of
  -- the configuration with an extension that is a period and more.
  get_config-IsEntry :
      (names : List Str) (config ext path : Str) (exts : List Str)
      → get_config to_lower join_path (some root) (some names) config (ext ∷ exts) ≡ ok path
      → (used : Str) × (is_extension used ≡ true)
        × IsEntry to_lower join_path root (to_lower (config ++ used)) path names
  get_config-IsEntry names config ext path exts h =
      let (before, used, after, same, missing, good, found) =
        (get_config_iff names config ext path exts).0 h in
      elim (add_files-IsEntry names [] (to_lower (config ++ used)) path found) [
        | inl entry ↦ (used, good, entry)
        | inr e ↦ absurd (find-empty (to_lower (config ++ used)) path e)
      ]
