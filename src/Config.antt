-- ===== src/Config.antt =====
-- The search for the configuration: getConfig of src/app.go, with GetFiles of src/utils/utils.go. The
-- working directory and its entries, strings.ToLower and filepath.Join are parameters.
pub mod Search
mod Tests
use local_drive.Base.{
  ℕ, Bool, true, false, not, ◌&&◌, Option, none, some, List, [], ◌∷◌, ◌++◌, Str, Result, ok, err,
  find, insert, Str_eq, nat_eq, if◌then◌else◌,
}
use local_drive.Base.Spaces.{is_empty}

pub data ConfigError : Type 0 where
  no_extensions no_directory unreadable empty_extension no_period : ConfigError
  not_found : Str → ConfigError

unfoldable pub has_newline : Str → Bool
has_newline [] = false
has_newline (c ∷ s) = let rest = has_newline s in if nat_eq c b'\n' then true else rest

-- ^\.(.+)$, where the period of the pattern is any character but a newline
unfoldable pub is_extension : Str → Bool
unfolding has_newline
is_extension [] = false
is_extension (c ∷ s) = nat_eq c b'.' && (not (is_empty s) && not (has_newline s))

module _ (to_lower : Str → Str) (join_path : List Str → Str) where
  -- The entries of a directory, later ones over earlier ones of the same name.
  unfoldable pub add_files : Str → List Str → List (Str × Str) → List (Str × Str)
  add_files root [] files = files
  add_files root (name ∷ names) files =
      add_files root names (insert (to_lower name) (join_path (root ∷ name ∷ [])) files)

  unfoldable pub get_files : Str → Option (List Str) → Result ConfigError (List (Str × Str))
  unfolding add_files
  get_files root none = err unreadable
  get_files root (some names) = ok (add_files root names [])

  abbrev pub file_of : Str → List (Str × Str) → Str → Option Str
  file_of config files ext = find (to_lower (config ++ ext)) files

  unfoldable pub search : Str → List (Str × Str) → List Str → Result ConfigError Str
  unfolding is_extension
  search config files [] = err (not_found config)
  search config files (ext ∷ exts) =
      let rest = search config files exts in
      if is_empty ext
      then err empty_extension
      else if not (is_extension ext)
      then err no_period
      else elim (file_of config files ext) [ none ↦ rest | some path ↦ ok path ]

  unfoldable pub searched :
      Str → List Str → Result ConfigError (List (Str × Str)) → Result ConfigError Str
  unfolding search
  searched config exts (err e) = err e
  searched config exts (ok files) = search config files exts

  -- The working directory and its entries, where they can be read.
  unfoldable pub get_config :
      Option Str → Option (List Str) → Str → List Str → Result ConfigError Str
  unfolding get_files searched
  get_config root entries config [] = err no_extensions
  get_config none entries config (ext ∷ exts) = err no_directory
  get_config (some root) entries config (ext ∷ exts) =
      searched config (ext ∷ exts) (get_files root entries)
