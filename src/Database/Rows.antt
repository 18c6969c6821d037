-- ===== src/Database/Rows.antt =====
-- SelectRows and SelectRow (src/db_gateway/db_utils.go), for a type whose fields are scanned in their
-- order: the reflection finds the fields, and a row that does not fit them is an error.
use local_drive.Base.{◌≡◌, refl, Option, none, some, List, [], ◌∷◌, map}
use local_drive.Sql.Placeholder.{Arg}

module _ {A : Type 0} (scan : List Arg → Option A) where
  prepended : Option A → Option (List A) → Option (List A)
  prepended none items = none
  prepended (some a) none = none
  prepended (some a) (some items) = some (a ∷ items)

  unfoldable pub select_rows : List (List Arg) → Option (List A)
  unfolding prepended
  select_rows [] = some []
  select_rows (r ∷ rows) = prepended (scan r) (select_rows rows)

  -- Each row is scanned over the one before; without rows the value stays as it was.
  unfoldable pub select_row : A → List (List Arg) → Option A
  select_row a [] = some a
  select_row a (r ∷ rows) = elim (scan r) [ none ↦ none | some b ↦ select_row b rows ]

  -- Rows that are written from values are read as those values.
  pub select_rows-map :
      (row : A → List Arg)
      → ((a : A) → scan (row a) ≡ some a)
      → (items : List A) → select_rows (map row items) ≡ some items
  unfolding select_rows
  select_rows-map row e [] = refl
  select_rows-map row e (a ∷ items) = rw (e a, select_rows-map row e items) refl
