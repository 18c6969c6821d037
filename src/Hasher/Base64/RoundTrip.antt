-- ===== src/Hasher/Base64/RoundTrip.antt =====
-- Decoding what was encoded, and the letters that an encoding has.
use local_drive.Base.{
  ℕ, ◌+◌, ◌*◌, ◌/◌, ◌%◌, ◌<◌, ◌≡◌, refl, ap, some, List, [], ◌∷◌, map, All, count, arith,
}
use local_drive.Hasher.Base64.{
  letter, encode64, strip_lines, values64, bytes64, decode64, unletter-letter, letter_bounds,
  IsByte,
}

-- The six-bit values of an encoding.
sextets : List ℕ → List ℕ
sextets [] = []
sextets (a ∷ []) = a / 4 ∷ (a % 4 * 16) ∷ []
sextets (a ∷ b ∷ []) = a / 4 ∷ (a % 4 * 16 + b / 16) ∷ (b % 16 * 4) ∷ []
sextets (a ∷ b ∷ c ∷ rest) =
    a / 4 ∷ (a % 4 * 16 + b / 16) ∷ (b % 16 * 4 + c / 64) ∷ c % 64 ∷ sextets rest

abbrev IsSextet : ℕ → Type 0
IsSextet v = v < 64

encode64-letters : (bs : List ℕ) → encode64 bs ≡ map letter (sextets bs)
unfolding encode64 sextets
encode64-letters [] = refl
encode64-letters (a ∷ []) = refl
encode64-letters (a ∷ b ∷ []) = refl
encode64-letters (a ∷ b ∷ c ∷ rest) = rw (encode64-letters rest)

sextets-small : (bs : List ℕ) → All IsByte bs → All IsSextet (sextets bs)
unfolding sextets
sextets-small [] h = tt
sextets-small (a ∷ []) h = omega arith
sextets-small (a ∷ b ∷ []) h = omega arith
sextets-small (a ∷ b ∷ c ∷ rest) h =
    (omega arith, (omega arith, (omega arith, (omega arith, sextets-small rest h.1.1.1))))

bytes64-sextets : (bs : List ℕ) → All IsByte bs → bytes64 (sextets bs) ≡ some bs
unfolding bytes64 sextets
bytes64-sextets [] h = refl
bytes64-sextets (a ∷ []) h = ground arith
bytes64-sextets (a ∷ b ∷ []) h = ground arith
bytes64-sextets (a ∷ b ∷ c ∷ rest) h = ground (arith, bytes64-sextets rest h.1.1.1)

strip_lines-letters : (vs : List ℕ) → All IsSextet vs → strip_lines (map letter vs) ≡ map letter vs
unfolding strip_lines
strip_lines-letters [] h = refl
strip_lines-letters (v ∷ vs) h = ground (arith, letter_bounds v h.0, strip_lines-letters vs h.1)

values64-letters : (vs : List ℕ) → All IsSextet vs → values64 (map letter vs) ≡ some vs
unfolding values64
values64-letters [] h = refl
values64-letters (v ∷ vs) h = rw (unletter-letter v h.0, values64-letters vs h.1)

-- Every list of bytes, of any length, is decoded from its encoding.
pub decode64-encode64 : (bs : List ℕ) → All IsByte bs → decode64 (encode64 bs) ≡ some bs
unfolding decode64
decode64-encode64 bs h =
    let small = sextets-small bs h in
    rw
      (
        encode64-letters bs,
        strip_lines-letters (sextets bs) small,
        values64-letters (sextets bs) small,
      )
      (bytes64-sextets bs h)

-- So two encodings are equal only if the bytes are.
pub encode64-injective :
    (xs bs : List ℕ) → All IsByte xs → All IsByte bs → encode64 xs ≡ encode64 bs → xs ≡ bs
encode64-injective xs bs h k e = cc (decode64-encode64 xs h, decode64-encode64 bs k, ap decode64 e)

count-letters : (c : ℕ) (vs : List ℕ) → c < 43 → All IsSextet vs → count c (map letter vs) ≡ 0
unfolding count
count-letters c [] b h = refl
count-letters c (v ∷ vs) b h = ground (arith, letter_bounds v h.0, count-letters c vs b h.1)

-- An encoding holds no '$'.
pub count-encode64 : (bs : List ℕ) → All IsByte bs → count b'$' (encode64 bs) ≡ 0
count-encode64 bs h =
    rw (encode64-letters bs) (count-letters b'$' (sextets bs) (omega arith) (sextets-small bs h))
