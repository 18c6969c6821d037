-- ===== src/Utils.antt =====
-- RemoveDuplicates and StructToAny of src/utils/utils.go, and CheckRequestHeaderNotEmpty of src/api/handler_utils.go.
pub mod Duplicates
pub mod Headers
mod Tests
use local_drive.Base.{
  Comparable, ◌≡◌, refl, Bool, true, false, Option, none, some, List, [], ◌∷◌, ◌++◌, Str, text,
  join, Result, ok, err, find, insert, if◌then◌else◌,
}
use local_drive.Base.Spaces.{is_empty, trim_space}

module _ {T : Type 0} ⦃e : Comparable T⦄ where
  -- The loop, with the values seen and the slice so far.
  unfoldable pub remove_from : List (T × Unit {0}) → List T → List T → List T
  remove_from seen slice [] = slice
  remove_from seen slice (v ∷ s) = elim (find v seen) [
    | none ↦ remove_from (insert v tt seen) (slice ++ (v ∷ [])) s
    | some _ ↦ remove_from seen slice s
  ]

  unfoldable pub remove_duplicates : List T → List T
  unfolding remove_from
  remove_duplicates s = remove_from [] [] s

-- What reflection tells of a Go value: a struct with its fields from top to bottom, a pointer to a value,
-- or anything else, nil included.
pub data GoValue (A : Type 0) : Type 0 where
  struct_of : List A → GoValue A
  pointer : GoValue A → GoValue A
  other : GoValue A

unfoldable pub get_reflect_value : {A : Type 0} → GoValue A → GoValue A
get_reflect_value (pointer v) = get_reflect_value v
get_reflect_value (struct_of fields) = struct_of fields
get_reflect_value other = other

fields_of : {A : Type 0} → GoValue A → List A
fields_of (struct_of fields) = fields
fields_of _ = []

-- StructToAny
unfoldable pub struct_to_any : {A : Type 0} → GoValue A → List A
unfolding get_reflect_value fields_of
struct_to_any v = fields_of (get_reflect_value v)

-- A pointer is seen through.
struct_to_any-pointer : {A : Type 0} (v : GoValue A) → struct_to_any (pointer v) ≡ struct_to_any v
unfolding struct_to_any get_reflect_value
struct_to_any-pointer v = refl

-- The keys without a value but spaces, in their order. `get` is Header.Get of the request.
unfoldable pub missing_headers : (Str → Str) → List Str → List Str
missing_headers get [] = []
missing_headers get (k ∷ keys) =
    let rest = missing_headers get keys in if is_empty (trim_space (get k)) then k ∷ rest else rest

unfoldable pub missing_error : List Str → Result Str (Unit {0})
missing_error [] = ok tt
missing_error (k ∷ missing) = err (text "missing headers: " ++ join (text ",") (k ∷ missing))

-- CheckRequestHeaderNotEmpty, with the text of its error.
unfoldable pub check_request_header_not_empty : (Str → Str) → List Str → Result Str (Unit {0})
unfolding missing_headers missing_error
check_request_header_not_empty get keys = missing_error (missing_headers get keys)
