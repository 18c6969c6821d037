-- ===== src/Users/Credentials.antt =====
-- validateUsername and validatePassword of src/db_gateway/user_gateway.go, with the errors of
-- src/db_gateway/gw_errors.go. A string is its bytes; the regular expressions are over ASCII.
use local_drive.Base.{
  ℕ, Bool, true, false, not, ◌&&◌, ◌||◌, [], ◌∷◌, Str, Result, err, ◌>>◌, refuse_if, length, leb,
  ltb, nat_eq, str_eq, if◌then◌else◌,
}
use local_drive.Base.Spaces.{trim_space, is_empty}

pub data UsernameError : Type 0 where
  empty len_out_of_range invalid_first_char invalid_end_char is_invalid : UsernameError

pub data PasswordError : Type 0 where
  empty len_out_of_range not_equal : PasswordError

abbrev pub username_min_length : ℕ
username_min_length = 6

abbrev pub username_max_length : ℕ
username_max_length = 32

abbrev pub password_min_length : ℕ
password_min_length = 8

abbrev pub password_max_length : ℕ
password_max_length = 64

-- [A-Za-z]
abbrev pub is_letter : ℕ → Bool
is_letter c = (leb b'A' c && leb c b'Z') || (leb b'a' c && leb c b'z')

-- [A-Za-z0-9]
abbrev pub is_alphanumeric : ℕ → Bool
is_alphanumeric c = is_letter c || (leb b'0' c && leb c b'9')

-- [A-Za-z0-9.]
abbrev pub is_name_char : ℕ → Bool
is_name_char c = is_alphanumeric c || nat_eq c b'.'

-- username[0] and username[len(username)-1] of a text that is not empty
unfoldable pub last_char : ℕ → Str → ℕ
last_char c [] = c
last_char c (d ∷ s) = last_char d s

-- .*[..]{2}.* anywhere in the text
unfoldable pub has_double_period : Str → Bool
has_double_period [] = false
has_double_period (c ∷ []) = false
has_double_period (c ∷ d ∷ s) =
    let rest = has_double_period (d ∷ s) in if nat_eq c b'.' && nat_eq d b'.' then true else rest

-- ^([A-Za-z0-9.]+)$ of a text that is not empty
unfoldable pub all_name_chars : Str → Bool
all_name_chars [] = true
all_name_chars (c ∷ s) = is_name_char c && all_name_chars s

-- What follows the test of the length.
unfoldable pub validate_chars : Str → Result UsernameError (Unit {0})
validate_chars [] = err UsernameError.empty
validate_chars (c ∷ s) = do
  refuse_if (not (is_letter c)) invalid_first_char
  refuse_if (not (is_alphanumeric (last_char c s))) invalid_end_char
  refuse_if (has_double_period (c ∷ s)) is_invalid
  refuse_if (not (all_name_chars (c ∷ s))) is_invalid

unfoldable pub validate_username : Str → Result UsernameError (Unit {0})
validate_username username = do
  refuse_if (is_empty (trim_space username)) UsernameError.empty
  refuse_if (ltb (length username) username_min_length || ltb username_max_length (length username))
      UsernameError.len_out_of_range
  validate_chars username

unfoldable pub validate_password : Str → Str → Result PasswordError (Unit {0})
validate_password pw confirm_pw = do
  refuse_if (is_empty pw) PasswordError.empty
  refuse_if (ltb (length pw) password_min_length || ltb password_max_length (length pw))
      PasswordError.len_out_of_range
  refuse_if (not (str_eq pw confirm_pw)) not_equal
