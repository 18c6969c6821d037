-- ===== src/Hasher/Split.antt =====
-- strings.Split at a byte.
use local_drive.Base.{ℕ, ◌≡◌, refl, List, [], ◌∷◌, ◌++◌, Str, count, nat_eq, if◌then◌else◌, arith}

prepend : ℕ → List Str → List Str
prepend x [] = (x ∷ []) ∷ []
prepend x (p ∷ ps) = (x ∷ p) ∷ ps

unfoldable pub split : ℕ → Str → List Str
unfolding prepend
split c [] = [] ∷ []
split c (x ∷ s) = let rest = split c s in if nat_eq x c then [] ∷ rest else prepend x rest

pub split_part : (c : ℕ) (s t : Str) → count c s ≡ 0 → split c (s ++ (c ∷ t)) ≡ s ∷ split c t
unfolding split count
split_part c [] t h = ground arith
split_part c (x ∷ s) t h = ground (arith, split_part c s t)

pub split_last : (c : ℕ) (s : Str) → count c s ≡ 0 → split c s ≡ s ∷ []
unfolding split count
split_last c [] h = refl
split_last c (x ∷ s) h = ground (arith, split_last c s)
