-- ===== src/DiskWriter/Slices.antt =====
-- Cutting and joining lists, as the write loop does. Sums are passed as equations.
use local_drive.Base.{
  ℕ, zero, suc, ◌+◌, ◌≡◌, refl, ap, List, [], ◌∷◌, ◌++◌, length, take, drop, arith,
}

module _ {ℓ} {A : Type ℓ} where
  pub drop-drop : (m n k : ℕ) (xs : List A) → k ≡ m + n → drop n (drop m xs) ≡ drop k xs
  drop-drop zero n k xs h = ap (λ (i : ℕ). drop i xs) (omega arith)
  drop-drop (suc m) zero k [] h = drop-drop_nil k
    where
      drop-drop_nil : (k : ℕ) → drop {A = A} 0 [] ≡ drop k []
      drop-drop_nil zero = refl
      drop-drop_nil (suc k) = refl
  drop-drop (suc m) (suc n) zero [] h = refl
  drop-drop (suc m) (suc n) (suc k) [] h = refl
  drop-drop (suc m) n zero (x ∷ xs) h = absurd (omega arith)
  drop-drop (suc m) n (suc k) (x ∷ xs) h = drop-drop m n k xs (omega arith)

  pub take-take-drop :
      (m n k : ℕ) (xs : List A) → k ≡ m + n → take m xs ++ take n (drop m xs) ≡ take k xs
  take-take-drop zero n k xs h = ap (λ (i : ℕ). take i xs) (omega arith)
  take-take-drop (suc m) n zero xs h = absurd (omega arith)
  take-take-drop (suc m) zero (suc k) [] h = refl
  take-take-drop (suc m) (suc n) (suc k) [] h = refl
  take-take-drop (suc m) n (suc k) (x ∷ xs) h = ap (◌∷◌ x) (take-take-drop m n k xs (omega arith))

  pub take_append : (c : ℕ) (xs ys : List A) → length xs ≡ c → take c (xs ++ ys) ≡ xs
  take_append zero [] ys h = refl
  take_append zero (x ∷ xs) ys h = absurd (omega arith)
  take_append (suc c) [] ys h = absurd (omega arith)
  take_append (suc c) (x ∷ xs) ys h = ap (◌∷◌ x) (take_append c xs ys (omega arith))

  pub drop_append :
      (c n k : ℕ) (xs ys : List A) → length xs ≡ c → k ≡ c + n → drop k (xs ++ ys) ≡ drop n ys
  drop_append c n k [] ys h e = ap (λ (i : ℕ). drop i ys) (omega arith)
  drop_append c n zero (x ∷ xs) ys h e = absurd (omega arith)
  drop_append zero n (suc k) (x ∷ xs) ys h e = absurd (omega arith)
  drop_append (suc c) n (suc k) (x ∷ xs) ys h e =
      drop_append c n k xs ys (omega arith) (omega arith)
