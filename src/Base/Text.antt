-- ===== src/Base/Text.antt =====
-- Go strings are byte sequences: lists of numbers. `text` reads a literal as its bytes.
use Prim.Native.Nat.{ℕ, ◌+◌}
use Prim.Native.Char.{code}
use Prim.Native.String.{String}
use mathlib.Core.Path.{◌≡◌, refl}
use mathlib.Core.Logic.{◌↔◌}
use mathlib.Core.Bool.{Bool, true, false, ◌&&◌}
use mathlib.Core.Option.{Option, none, some}
use mathlib.Core.List.{List, [], ◌∷◌, ◌++◌}
use native.Mathlib.Omega.{arith}
use local_drive.Base.Tests.{Comparable, nat_eq, if◌then◌else◌}

abbrev pub Str : Type 0
Str = List ℕ

unfoldable pub text : String → Str
text String.[] = []
text (String.◌∷◌ c s) = code c ∷ text s

unfoldable pub str_eq : Str → Str → Bool
str_eq [] [] = true
str_eq (a ∷ s) (b ∷ t) = nat_eq a b && str_eq s t
str_eq _ _ = false

pub Str-eq_iff : (s t : Str) → (str_eq s t ≡ true) ↔ (s ≡ t)
unfolding str_eq
Str-eq_iff [] [] = ground arith
Str-eq_iff [] (b ∷ t) = ground arith
Str-eq_iff (a ∷ s) [] = ground arith
Str-eq_iff (a ∷ s) (b ∷ t) = ground (arith, Str-eq_iff s t)

pub str_eq-false : (s t : Str) → str_eq s t ≡ false → ¬ (s ≡ t)
str_eq-false s t h e = cc (h, (Str-eq_iff s t).1 e)

pub str_eq_refl : (s : Str) → str_eq s s ≡ true
str_eq_refl s = (Str-eq_iff s s).1 refl

instance abbrev pub Str_eq : Comparable Str
Str_eq = record { same = str_eq; same_iff = Str-eq_iff }

-- strings.Join(parts, "")
unfoldable pub concat : List Str → Str
concat [] = []
concat (s ∷ ss) = s ++ concat ss

join_rest : Str → List Str → Str
join_rest sep [] = []
join_rest sep (s ∷ ss) = sep ++ (s ++ join_rest sep ss)

-- strings.Join
unfoldable pub join : Str → List Str → Str
unfolding join_rest
join sep [] = []
join sep (s ∷ ss) = s ++ join_rest sep ss

-- How often a byte occurs.
unfoldable pub count : ℕ → Str → ℕ
count c [] = 0
count c (b ∷ s) = (if nat_eq b c then 1 else 0) + count c s

pub count-append : (c : ℕ) (s t : Str) → count c (s ++ t) ≡ count c s + count c t
unfolding count
count-append c [] t = omega arith
count-append c (b ∷ s) t = omega (arith, count-append c s t)

-- The sum of a count over the parts.
abbrev pub count_all : ℕ → List Str → ℕ
count_all c [] = 0
count_all c (s ∷ ss) = count c s + count_all c ss

count-join_rest :
    (c : ℕ) (sep : Str) (ss : List Str)
    → count c sep ≡ 0
    → count c (join_rest sep ss) ≡ count_all c ss
unfolding join_rest count
count-join_rest c sep [] h = refl
count-join_rest c sep (s ∷ ss) h = omega (
  arith,
  count-append c sep (s ++ join_rest sep ss),
  count-append c s (join_rest sep ss),
  count-join_rest c sep ss h,
)

-- A separator that lacks the byte adds none.
pub count-join :
    (c : ℕ) (sep : Str) (ss : List Str) → count c sep ≡ 0 → count c (join sep ss) ≡ count_all c ss
unfolding join count
count-join c sep [] h = refl
count-join c sep (s ∷ ss) h =
    omega (arith, count-append c s (join_rest sep ss), count-join_rest c sep ss h)

pub count_all-append :
    (c : ℕ) (ss ts : List Str) → count_all c (ss ++ ts) ≡ count_all c ss + count_all c ts
count_all-append c [] ts = omega arith
count_all-append c (s ∷ ss) ts = omega (arith, count_all-append c ss ts)

-- The rest of a text behind a prefix.
unfoldable pub strip_prefix : Str → Str → Option Str
strip_prefix [] s = some s
strip_prefix (p ∷ ps) [] = none
strip_prefix (p ∷ ps) (c ∷ s) = if nat_eq p c then strip_prefix ps s else none

or_self : Str → Option Str → Str
or_self s none = s
or_self s (some r) = r

-- strings.TrimPrefix, given the prefix first
unfoldable pub trim_prefix : Str → Str → Str
unfolding strip_prefix or_self
trim_prefix p s = or_self s (strip_prefix p s)
