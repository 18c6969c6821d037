-- ===== src/Users/Tests.antt =====
-- Witnesses and tests of the rules for names and passwords.
use local_drive.Base.{◌≡◌, refl, ◌↔◌, text, ok, err}
use local_drive.Users.Credentials.{
  validate_username, validate_chars, last_char, has_double_period, is_invalid,
}
use local_drive.Users.Rules.{IsUsername, validate_username_iff}

validate_username_iff_example :
    (validate_username (text "ada.lovelace") ≡ ok tt) ↔ IsUsername (text "ada.lovelace")
validate_username_iff_example = validate_username_iff (text "ada.lovelace")

validate_chars_test : validate_chars (text "ada..lovelace") ≡ err is_invalid
unfolding validate_chars last_char has_double_period text
validate_chars_test = refl
