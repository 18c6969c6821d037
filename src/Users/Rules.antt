-- ===== src/Users/Rules.antt =====
-- The rules for names and passwords, said without the code's tests.
use local_drive.Base.{
  ℕ, ◌≤◌, ◌≡◌, subst, ◌≢◌, ◌↔◌, ◌⊎◌, refl, ap, true, false, ◌&&◌, [], ◌∷◌, ◌++◌, Str, ok, All,
  length, nat_eq, Str-eq_iff, arith, Bool-cases, inl, inr, ◌∙◌,
}
use local_drive.Base.Spaces.{trim_space, trim_left, is_empty}
use local_drive.Users.Credentials.{
  is_letter, is_alphanumeric, last_char, has_double_period, all_name_chars, validate_chars,
  validate_username, validate_password,
}

abbrev pub IsLetter : ℕ → Type 0
IsLetter c = ((b'A' ≤ c) × (c ≤ b'Z')) ⊎ ((b'a' ≤ c) × (c ≤ b'z'))

abbrev pub IsAlphanumeric : ℕ → Type 0
IsAlphanumeric c = IsLetter c ⊎ ((b'0' ≤ c) × (c ≤ b'9'))

abbrev pub IsNameChar : ℕ → Type 0
IsNameChar c = IsAlphanumeric c ⊎ (c ≡ b'.')

-- The name is `first`, `middle`, `last`, all of them letters, digits and periods.
pub record IsUsername (u : Str) : Type 0 where
  pub long : 6 ≤ length u
  pub short : length u ≤ 32
  pub chars : All IsNameChar u
  pub first : (c : ℕ) (s : Str) → u ≡ c ∷ s → IsLetter c
  pub last : (s : Str) (c : ℕ) → u ≡ s ++ (c ∷ []) → IsAlphanumeric c
  pub single : (s t : Str) → u ≢ s ++ (b'.' ∷ b'.' ∷ t)

is_letter_iff : (c : ℕ) → (is_letter c ≡ true) ↔ IsLetter c
is_letter_iff c = ground arith

is_alphanumeric_iff : (c : ℕ) → (is_alphanumeric c ≡ true) ↔ IsAlphanumeric c
is_alphanumeric_iff c = ground arith

all_name_chars_iff : (u : Str) → (all_name_chars u ≡ true) ↔ All IsNameChar u
unfolding all_name_chars
all_name_chars_iff [] = ((λ h. tt), λ h. refl)
all_name_chars_iff (c ∷ s) = ground (arith, all_name_chars_iff s)

last_char-append : (c : ℕ) (s : Str) (d : ℕ) → last_char c (s ++ (d ∷ [])) ≡ d
unfolding last_char
last_char-append c [] d = refl
last_char-append c (e ∷ s) d = last_char-append e s d

last_char_eq : (c : ℕ) (s t : Str) (d : ℕ) → c ∷ s ≡ t ++ (d ∷ []) → last_char c s ≡ d
unfolding last_char
last_char_eq c s [] d h = cc
last_char_eq c s (e ∷ t) d h =
    let tail : s ≡ t ++ (d ∷ []) = cc in ap (last_char c) tail ∙ last_char-append c t d

last_char-split : (c : ℕ) (s : Str) → (t : Str) × (c ∷ s ≡ t ++ (last_char c s ∷ []))
unfolding last_char
last_char-split c [] = ([], refl)
last_char-split c (d ∷ s) = let (t, e) = last_char-split d s in (c ∷ t, ap (◌∷◌ c) e)

-- The expression finds two periods in a row wherever they stand, and nothing else.
double_at : (s t : Str) → has_double_period (s ++ (b'.' ∷ b'.' ∷ t)) ≡ true
unfolding has_double_period
double_at [] t = refl
double_at (c ∷ []) t = ground (arith, double_at [] t)
double_at (c ∷ d ∷ s) t = ground (arith, double_at (d ∷ s) t)

double_found :
    (u : Str) → has_double_period u ≡ true → (s : Str) × ((t : Str) × (u ≡ s ++ (b'.' ∷ b'.' ∷ t)))
unfolding has_double_period
double_found [] h = cc
double_found (c ∷ []) h = cc
double_found (c ∷ d ∷ s) h = elim (Bool-cases (nat_eq c b'.' && nat_eq d b'.')) [
  | inl here ↦ ([], (s, ground arith))
  | inr later ↦
      let (s', (t, e)) = double_found (d ∷ s) (ground arith) in (c ∷ s', (t, ap (◌∷◌ c) e))
]

has_double_period_iff :
    (u : Str) → (has_double_period u ≡ false) ↔ ((s t : Str) → u ≢ s ++ (b'.' ∷ b'.' ∷ t))
has_double_period_iff u = (
  (λ h s t e. cc (double_at s t, ap has_double_period e)),
  λ none_at. elim (Bool-cases (has_double_period u)) [
    | inl found ↦ let (s, (t, e)) = double_found u found in absurd (none_at s t e)
    | inr clear ↦ clear
  ],
)

-- A text that starts with a letter is not blank.
trim_left-letter : (c : ℕ) (s : Str) → IsLetter c → trim_left (c ∷ s) ≡ c ∷ s
unfolding trim_left
trim_left-letter c [] h = ground arith
trim_left-letter c (a ∷ []) h = ground arith
trim_left-letter c (a ∷ b ∷ s) h = ground arith

trim_space-letter : (c : ℕ) (s : Str) → IsLetter c → is_empty (trim_space (c ∷ s)) ≡ false
unfolding trim_space
trim_space-letter c s h = rw (trim_left-letter c s h, trim_left-letter c s h) refl

validate_chars_iff :
    (c : ℕ) (s : Str)
    → (validate_chars (c ∷ s) ≡ ok tt) ↔ (
        IsLetter c
        × IsAlphanumeric (last_char c s)
        × (has_double_period (c ∷ s) ≡ false)
        × All IsNameChar (c ∷ s))
unfolding validate_chars
validate_chars_iff c s =
    ground (arith, all_name_chars_iff (c ∷ s), is_letter_iff c, is_alphanumeric_iff (last_char c s))

validate_username-steps :
    (u : Str)
    → (validate_username u ≡ ok tt) ↔ (
        (is_empty (trim_space u) ≡ false)
        × (6 ≤ length u)
        × (length u ≤ 32)
        × (validate_chars u ≡ ok tt))
unfolding validate_username
validate_username-steps u = ground arith

-- Exactly the names of 6 to 32 ASCII letters, digits and periods that start with a letter, end with a
-- letter or digit and have no two periods in a row are accepted.
pub validate_username_iff : (u : Str) → (validate_username u ≡ ok tt) ↔ IsUsername u
validate_username_iff [] = (
  (λ h. let (_, long, _, _) = (validate_username-steps []).0 h in absurd (omega (arith, long))),
  λ u. absurd (omega (arith, u.long)),
)
validate_username_iff (c ∷ s) = (
  (λ h.
      let (_, long, short, kept) = (validate_username-steps (c ∷ s)).0 h in
      let (first, last, double, chars) = (validate_chars_iff c s).0 kept in
      record {
        long = long;
        short = short;
        chars = chars;
        first = λ d t e. let same : c ≡ d = cc in subst IsLetter same first;
        last = λ t d e. subst IsAlphanumeric (last_char_eq c s t d e) last;
        single = (has_double_period_iff (c ∷ s)).0 double;
      }),
  λ u.
      let first = u.first c s refl in
      let (t, e) = last_char-split c s in
      (validate_username-steps (c ∷ s)).1 (
        trim_space-letter c s first,
        u.long,
        u.short,
        (validate_chars_iff c s).1
            (first, u.last t _ e, (has_double_period_iff (c ∷ s)).1 u.single, u.chars),
      ),
)

-- A password is accepted exactly when it has 8 to 64 bytes and is repeated.
validate_password_iff :
    (pw confirm : Str)
    → (validate_password pw confirm ≡ ok tt) ↔ ((8 ≤ length pw) × (length pw ≤ 64) × (pw ≡ confirm))
unfolding validate_password
validate_password_iff [] confirm = ground arith
validate_password_iff (c ∷ s) confirm = ground (arith, Str-eq_iff (c ∷ s) confirm)
