-- ===== src/Config/Tests.antt =====
-- Witnesses of the search for the configuration.
use local_drive.Base.{
  ◌≡◌, ◌↔◌, refl, some, List, [], ◌∷◌, Str, text, str_eq, join, ok, find, insert, Str_eq,
}
use local_drive.Config.{
  is_extension, has_newline, add_files, get_files, search, searched, get_config,
}
use local_drive.Config.Search.{IsFirst, get_config_iff}

abbrev as_is : Str → Str
as_is s = s

abbrev names : List Str
names = text "go.mod" ∷ text "config.yml" ∷ []

get_config_iff_example :
    (get_config as_is
        (join (text "/"))
        (some (text "app"))
        (some names)
        (text "config")
        (text ".yaml" ∷ text ".yml" ∷ [])
      ≡ ok (text "app/config.yml"))
    ↔ IsFirst as_is
        (join (text "/"))
        (text "config")
        (add_files as_is (join (text "/")) (text "app") names [])
        (text ".yaml" ∷ text ".yml" ∷ [])
        (text "app/config.yml")
get_config_iff_example =
    get_config_iff as_is (join (text "/")) (text "app") names (text "config") (text ".yaml")
      (text "app/config.yml") (text ".yml" ∷ [])

found_test :
    get_config as_is
      (join (text "/"))
      (some (text "app"))
      (some names)
      (text "config")
      (text ".yaml" ∷ text ".yml" ∷ [])
    ≡ ok (text "app/config.yml")
unfolding get_config get_files searched search add_files is_extension has_newline find insert str_eq
    text join
found_test = refl
