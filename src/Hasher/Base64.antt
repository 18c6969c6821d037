-- ===== src/Hasher/Base64.antt =====
-- base64.RawStdEncoding of Go's standard library: no padding; decoding skips line ends and does
-- not look at the bits that the last letter has too many.
pub mod RoundTrip
use local_drive.Base.{
  ℕ, zero, suc, ◌+◌, ◌-◌, ◌*◌, ◌/◌, ◌%◌, ◌≤◌, ◌<◌, ◌≡◌, refl, ap, ◌∙◌, Bool, true, false, ◌&&◌,
  ◌||◌, Option, none, some, List, [], ◌∷◌, ◌++◌, Str, All, leb, ltb, nat_eq, if◌then◌else◌, arith,
  length,
}

-- Letters, digits, '+' and '/'.
unfoldable pub letter : ℕ → ℕ
letter v =
    if ltb v 26
    then v + b'A'
    else if ltb v 52
    then v - 26 + b'a'
    else if ltb v 62
    then v - 52 + b'0'
    else if nat_eq v 62
    then b'+'
    else b'/'

unfoldable pub unletter : ℕ → Option ℕ
unletter c =
    if leb b'A' c && leb c b'Z'
    then some (c - b'A')
    else if leb b'a' c && leb c b'z'
    then some (c - b'a' + 26)
    else if leb b'0' c && leb c b'9'
    then some (c - b'0' + 52)
    else if nat_eq c b'+'
    then some 62
    else if nat_eq c b'/'
    then some 63
    else none

-- Three bytes make four letters; one or two bytes left over make two or three.
unfoldable pub encode64 : List ℕ → Str
encode64 [] = []
encode64 (a ∷ []) = letter (a / 4) ∷ letter (a % 4 * 16) ∷ []
encode64 (a ∷ b ∷ []) = letter (a / 4) ∷ letter (a % 4 * 16 + b / 16) ∷ letter (b % 16 * 4) ∷ []
encode64 (a ∷ b ∷ c ∷ rest) =
    letter (a / 4)
    ∷ letter (a % 4 * 16 + b / 16)
    ∷ letter (b % 16 * 4 + c / 64)
    ∷ letter (c % 64)
    ∷ encode64 rest

-- '\r' and '\n' are skipped.
unfoldable pub strip_lines : Str → Str
strip_lines [] = []
strip_lines (c ∷ s) =
    let rest = strip_lines s in if nat_eq c 10 || nat_eq c 13 then rest else c ∷ rest

infixl 5 ◌>>=◌
abbrev ◌>>=◌ {ℓ κ} : {A : Type ℓ} {B : Type κ} → Option A → (A → Option B) → Option B
none >>= f = none
some a >>= f = f a

unfoldable pub values64 : Str → Option (List ℕ)
values64 [] = some []
values64 (c ∷ s) = do v ← unletter c; vs ← values64 s; some (v ∷ vs)

-- A single letter left over is an error.
unfoldable pub bytes64 : List ℕ → Option (List ℕ)
bytes64 [] = some []
bytes64 (v ∷ []) = none
bytes64 (v ∷ w ∷ []) = some ((v * 4 + w / 16) ∷ [])
bytes64 (v ∷ w ∷ x ∷ []) = some ((v * 4 + w / 16) ∷ (w % 16 * 16 + x / 4) ∷ [])
bytes64 (v ∷ w ∷ x ∷ y ∷ rest) = do
  more ← bytes64 rest
  some ((v * 4 + w / 16) ∷ (w % 16 * 16 + x / 4) ∷ (x % 4 * 64 + y) ∷ more)

unfoldable pub decode64 : Str → Option (List ℕ)
decode64 s = do vs ← values64 (strip_lines s); bytes64 vs

abbrev pub IsByte : ℕ → Type 0
IsByte b = b < 256

unletter-letter : (v : ℕ) → v < 64 → unletter (letter v) ≡ some v
unfolding letter unletter
unletter-letter v h = ground arith

-- A letter is neither a line end nor the separator '$'.
letter_bounds : (v : ℕ) → v < 64 → (43 ≤ letter v)
unfolding letter
letter_bounds v h = ground arith
