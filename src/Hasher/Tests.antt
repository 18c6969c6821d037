-- ===== src/Hasher/Tests.antt =====
-- Witnesses and tests of the hasher, with a short function in the place of Argon2id.
use local_drive.Base.{
  ℕ, zero, suc, ◌+◌, ◌*◌, ◌%◌, ◌≤◌, ◌≡◌, refl, none, some, Option, List, [], ◌∷◌, Str, text, ok,
  All, length, replicate, length-replicate, nat_eq, if◌then◌else◌, ◌||◌, arith,
}
use local_drive.Hasher.Base64.{IsByte, encode64, letter}
use local_drive.Hasher.Phc.{Argon2Params, RawHash, encode, parse_phc}
use local_drive.Hasher.Phc.Params.{InRange}
use local_drive.Hasher.Phc.RoundTrip.{IsRaw, parse_phc-encode}
use local_drive.Hasher.Compare.{Argon2, Random, hash}

abbrev pub mixed : Str → List ℕ → ℕ → List ℕ
mixed pw salt len = replicate len ((length pw * 7 + length salt) % 256)

pub replicate-All : (n b : ℕ) → IsByte b → All IsByte (replicate n b)
replicate-All zero b h = tt
replicate-All (suc n) b h = (h, replicate-All n b h)

abbrev pub toy_key : Str → List ℕ → ℕ → ℕ → ℕ → ℕ → Option (List ℕ)
toy_key pw salt time memory threads len =
    if nat_eq time 0 || nat_eq threads 0 then none else some (mixed pw salt len)

pub toy_key-some :
    (pw : Str) (salt : List ℕ) (time memory threads len : ℕ)
    → 1 ≤ time
    → 1 ≤ threads
    → (k : List ℕ) × (toy_key pw salt time memory threads len ≡ some k)
      × All IsByte k
      × (length k ≡ len)
toy_key-some pw salt time memory threads len t p =
    (mixed pw salt len, ground arith, replicate-All len _ (omega arith), length-replicate len _)

abbrev pub toy : Argon2
toy = record { id_key = toy_key; id_key-some = toy_key-some }

abbrev params : Argon2Params
params = record { salt_length = 4; time = 2; memory = 65536; threads = 4; key_length = 5 }

abbrev salt : List ℕ
salt = 0 ∷ 255 ∷ 16 ∷ 7 ∷ []

salt-All : All IsByte salt
salt-All = (omega arith, (omega arith, (omega arith, (omega arith, tt))))

params-InRange : InRange params
params-InRange = record {
  time = omega arith;
  memory = omega arith;
  threads = omega arith;
  key_length = omega arith;
}

abbrev raw : RawHash
raw = record { salt = salt; hash = 1 ∷ 2 ∷ 3 ∷ 250 ∷ 251 ∷ []; params = params }

raw-IsRaw : IsRaw raw
raw-IsRaw = record {
  salt = salt-All;
  hash = (omega arith, (omega arith, (omega arith, (omega arith, (omega arith, tt)))));
  params = params-InRange;
  salt_length = refl;
  key_length = refl;
}

parse_phc-encode_example : parse_phc (encode raw).phc ≡ ok (record (encode raw) { phc = [] })
parse_phc-encode_example = parse_phc-encode raw raw-IsRaw

abbrev no_salt : Random
no_salt n = none

encode64_test : encode64 (72 ∷ 105 ∷ []) ≡ text "SGk"
unfolding encode64 letter text
encode64_test = refl
