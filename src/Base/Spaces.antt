-- ===== src/Base/Spaces.antt =====
-- strings.TrimSpace, over UTF-8: the ASCII spaces, and the ones that Unicode adds (U+0085, U+00A0,
-- U+1680, U+2000 to U+200A, U+2028, U+2029, U+202F, U+205F, U+3000).
use Prim.Native.Nat.{ℕ}
use mathlib.Core.Bool.{Bool, true, false, ◌&&◌, ◌||◌}
use mathlib.Core.List.{[], ◌∷◌}
use local_drive.Base.Tests.{leb, nat_eq, if◌then◌else◌}
use local_drive.Base.Text.{Str}

-- \t \n \v \f \r and the space
abbrev is_space : ℕ → Bool
is_space a = (leb 9 a && leb a 13) || nat_eq a 32

abbrev is_two_byte_space : ℕ → ℕ → Bool
is_two_byte_space a b = nat_eq a 0xC2 && (nat_eq b 0x85 || nat_eq b 0xA0)

abbrev general_punctuation : ℕ → ℕ → Bool
general_punctuation b c =
    (nat_eq b 0x80
      && ((leb 0x80 c && leb c 0x8A) || (nat_eq c 0xA8 || (nat_eq c 0xA9 || nat_eq c 0xAF))))
    || (nat_eq b 0x81 && nat_eq c 0x9F)

abbrev is_three_byte_space : ℕ → ℕ → ℕ → Bool
is_three_byte_space a b c =
    (nat_eq a 0xE1 && (nat_eq b 0x9A && nat_eq c 0x80))
    || ((nat_eq a 0xE2 && general_punctuation b c)
        || (nat_eq a 0xE3 && (nat_eq b 0x80 && nat_eq c 0x80)))

unfoldable pub trim_left : Str → Str
trim_left [] = []
trim_left (a ∷ []) = if is_space a then [] else a ∷ []
trim_left (a ∷ b ∷ []) =
    let one = trim_left (b ∷ []) in
    if is_space a then one else if is_two_byte_space a b then [] else a ∷ b ∷ []
trim_left (a ∷ b ∷ c ∷ s) =
    let one = trim_left (b ∷ c ∷ s) in
    let two = trim_left (c ∷ s) in
    let three = trim_left s in
    if is_space a
    then one
    else if is_two_byte_space a b
    then two
    else if is_three_byte_space a b c
    then three
    else a ∷ b ∷ c ∷ s

abbrev pub is_empty : Str → Bool
is_empty [] = true
is_empty (c ∷ s) = false

-- A tail is cut off where only spaces are left.
unfoldable pub trim_right : Str → Str
trim_right [] = []
trim_right (c ∷ s) =
    let rest = trim_right s in if is_empty (trim_left (c ∷ s)) then [] else c ∷ rest

unfoldable pub trim_space : Str → Str
unfolding trim_left trim_right
trim_space s = trim_right (trim_left s)
