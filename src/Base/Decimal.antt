-- ===== src/Base/Decimal.antt =====
-- strconv.Atoi and the verb %d of fmt, of Go's standard library.
use Prim.Native.Nat.{ℕ, zero, suc, ◌+◌, ◌-◌, ◌*◌, ◌/◌, ◌%◌, ◌≤◌, ◌<◌}
use mathlib.Core.Path.{◌≡◌, refl, ap, ◌∙◌}
use mathlib.Core.Logic.{inl, inr}
use mathlib.Core.Bool.{Bool, true, false, ◌&&◌}
use mathlib.Core.Option.{Option, none, some}
use mathlib.Core.List.{[], ◌∷◌, ◌++◌}
use native.Mathlib.Omega.{arith}
use local_drive.Base.Tests.{leb, ltb, if◌then◌else◌, Bool-cases, ltb-false, le→leb}
use local_drive.Base.Text.{Str}
use local_drive.Base.Int.{ℤ, pos, negsuc, max_int}

abbrev pub is_digit : ℕ → Bool
is_digit c = leb b'0' c && leb c b'9'

abbrev pub IsDigit : ℕ → Type 0
IsDigit c = (b'0' ≤ c) × (c ≤ b'9')

show_fuel : ℕ → ℕ → Str
show_fuel zero n = []
show_fuel (suc f) n =
    let more = show_fuel f (n / 10) ++ ((48 + n % 10) ∷ []) in
    if ltb n 10 then (48 + n) ∷ [] else more

-- fmt.Sprintf("%d", n). A number has fewer digits than its successor counts.
unfoldable pub show : ℕ → Str
unfolding show_fuel
show n = show_fuel (suc n) n

unfoldable pub value : ℕ → Str → ℕ
value acc [] = acc
value acc (c ∷ s) = value (acc * 10 + (c - 48)) s

unfoldable pub all_digits : Str → Bool
all_digits [] = true
all_digits (c ∷ s) = is_digit c && all_digits s

-- An unsigned number up to `most`.
magnitude : ℕ → Str → Option ℕ
magnitude most [] = none
magnitude most (c ∷ s) =
    if all_digits (c ∷ s)
    then if leb (value 0 (c ∷ s)) most then some (value 0 (c ∷ s)) else none
    else none

negated : ℕ → ℤ
negated zero = pos 0
negated (suc n) = negsuc n

abbrev map_option {ℓ κ} : {A : Type ℓ} {B : Type κ} → (A → B) → Option A → Option B
map_option f none = none
map_option f (some a) = some (f a)

-- An optional sign and digits, within the range of int.
unfoldable pub atoi : Str → Option ℤ
unfolding magnitude negated all_digits value
atoi [] = none
atoi (c ∷ s) =
    if leb c b'-' && leb b'-' c
    then map_option negated (magnitude (suc max_int) s)
    else if leb c b'+' && leb b'+' c
    then map_option pos (magnitude max_int s)
    else map_option pos (magnitude max_int (c ∷ s))

value-snoc : (acc : ℕ) (s : Str) (c : ℕ) → value acc (s ++ (c ∷ [])) ≡ value acc s * 10 + (c - 48)
unfolding value
value-snoc acc [] c = refl
value-snoc acc (d ∷ s) c = value-snoc (acc * 10 + (d - 48)) s c

all_digits-snoc :
    (s : Str) (c : ℕ) → all_digits s ≡ true → IsDigit c → all_digits (s ++ (c ∷ [])) ≡ true
unfolding all_digits
all_digits-snoc [] c h k = ground arith
all_digits-snoc (d ∷ s) c h k = ground (arith, all_digits-snoc s c)

value-show_fuel : (f n : ℕ) → n < f → value 0 (show_fuel f n) ≡ n
unfolding show_fuel value
value-show_fuel zero n h = elim h [ ]
value-show_fuel (suc f) n h = elim (Bool-cases (ltb n 10)) [
  | inl few ↦ rw few (omega arith)
  | inr many ↦ rw many (
      value-snoc 0 (show_fuel f (n / 10)) (48 + n % 10)
      ∙ omega (arith, value-show_fuel f (n / 10) (omega (arith, ltb-false _ _ many))))
]

all_digits-show_fuel : (f n : ℕ) → all_digits (show_fuel f n) ≡ true
unfolding show_fuel all_digits
all_digits-show_fuel zero n = refl
all_digits-show_fuel (suc f) n = elim (Bool-cases (ltb n 10)) [
  | inl few ↦ rw few (ground arith)
  | inr many ↦ rw many (
      all_digits-snoc (show_fuel f (n / 10)) (48 + n % 10) (all_digits-show_fuel f (n / 10))
        (omega arith))
]

-- Reading a printed number gives the number.
value-show : (n : ℕ) → value 0 (show n) ≡ n
unfolding show
value-show n = value-show_fuel (suc n) n (omega arith)

pub all_digits-show : (n : ℕ) → all_digits (show n) ≡ true
unfolding show
all_digits-show n = all_digits-show_fuel (suc n) n

show_fuel-cons : (f n : ℕ) → (c : ℕ) × (s : Str) × (show_fuel (suc f) n ≡ c ∷ s)
unfolding show_fuel
show_fuel-cons f n = elim (Bool-cases (ltb n 10)) [
  | inl few ↦ (48 + n, [], rw few)
  | inr many ↦ snoc-cons (show_fuel f (n / 10)) (48 + n % 10) many
]
  where
    snoc-cons :
        (s : Str) (d : ℕ)
        → ltb n 10 ≡ false
        → (c : ℕ) × (t : Str) × ((if ltb n 10 then (48 + n) ∷ [] else s ++ (d ∷ [])) ≡ c ∷ t)
    snoc-cons [] d many = (d, [], rw many)
    snoc-cons (x ∷ s) d many = (x, s ++ (d ∷ []), rw many)

-- A printed number is not empty.
show-cons : (n : ℕ) → (c : ℕ) × (s : Str) × (show n ≡ c ∷ s)
unfolding show
show-cons n = show_fuel-cons n n

abbrev pub NonEmpty : Str → Type 0
NonEmpty [] = ⊥
NonEmpty (c ∷ s) = Unit {0}

pub show-NonEmpty : (n : ℕ) → NonEmpty (show n)
show-NonEmpty n = let (c, s, e) = show-cons n in rw e tt

no_sign :
    (c : ℕ) (s : Str) (sign : ℕ)
    → all_digits (c ∷ s) ≡ true
    → sign < 48
    → leb c sign && leb sign c ≡ false
unfolding all_digits
no_sign c s sign d h = ground arith

-- Digits, as far as int reaches, are read as their value.
atoi-digits :
    (s : Str)
    → NonEmpty s
    → all_digits s ≡ true
    → value 0 s ≤ max_int
    → atoi s ≡ some (pos (value 0 s))
unfolding atoi
atoi-digits [] e d h = absurd e
atoi-digits (c ∷ s) e d h =
    rw (no_sign c s b'-' d (omega arith), no_sign c s b'+' d (omega arith), d, le→leb _ _ h)

pub atoi-show : (n : ℕ) → n ≤ max_int → atoi (show n) ≡ some (pos n)
atoi-show n h =
    atoi-digits (show n) (show-NonEmpty n) (all_digits-show n) (rw (value-show n) h)
    ∙ ap (λ (v : ℕ). some (pos v)) (value-show n)
