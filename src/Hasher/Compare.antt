-- ===== src/Hasher/Compare.antt =====
-- Hash, getSalt and Compare of src/hasher/hasher.go, over Argon2id as a parameter.
use local_drive.Base.{
  ℕ, ◌≤◌, ◌≡◌, ◌↔◌, refl, ap, sym, ◌∙◌, Bool, true, Option, none, some, List, [], Str, Result, ok,
  err, ◌>>=◌, All, length, str_eq, Str-eq_iff,
}
use mathlib.Core.Option.{some-injective}
use local_drive.Hasher.Base64.{IsByte, encode64}
use local_drive.Hasher.Base64.RoundTrip.{encode64-injective}
use local_drive.Hasher.Phc.{
  Argon2Params, RawHash, HashResult, HashError, no_random, panicked, encode, decode, parse_phc,
}
use local_drive.Hasher.Phc.Params.{InRange}
use local_drive.Hasher.Phc.RoundTrip.{IsRaw, parse_phc-encode, decode-encode}

-- argon2.IDKey of golang.org/x/crypto: password, salt, time, memory, threads and key length. It
-- panics on a time or parallelism of 0, and otherwise gives that many bytes.
pub record Argon2 : Type 0 where
  pub id_key : Str → List ℕ → ℕ → ℕ → ℕ → ℕ → Option (List ℕ)
  pub id_key-some :
      (pw : Str) (salt : List ℕ) (time memory threads len : ℕ)
      → 1 ≤ time
      → 1 ≤ threads
      → (k : List ℕ) × (id_key pw salt time memory threads len ≡ some k)
        × All IsByte k
        × (length k ≡ len)

-- rand.Read of a given size; `none` where it fails.
abbrev pub Random : Type 0
Random = ℕ → Option (List ℕ)

get_salt : Random → ℕ → Result HashError (List ℕ)
get_salt random size = elim (random size) [ none ↦ err no_random | some salt ↦ ok salt ]

-- `if salt == nil`
salt_or_new : Random → Option (List ℕ) → Argon2Params → Result HashError (List ℕ)
unfolding get_salt
salt_or_new random none params = get_salt random params.salt_length
salt_or_new random (some salt) params = ok salt

derived : List ℕ → Argon2Params → Option (List ℕ) → Result HashError RawHash
derived salt params none = err panicked
derived salt params (some k) = ok (record { salt = salt; hash = k; params = params })

module _ (argon : Argon2) where
  abbrev pub key : Str → List ℕ → Argon2Params → Option (List ℕ)
  key pw salt p = argon.id_key pw salt p.time p.memory p.threads p.key_length

  unfoldable pub hash : Random → Str → Option (List ℕ) → Argon2Params → Result HashError RawHash
  unfolding salt_or_new derived
  hash random pw salt params = do
    s ← salt_or_new random salt params
    derived s params (key pw s params)

  unfoldable pub compare : Random → Str → HashResult → Result HashError Bool
  compare random pw hr = do
    conv_raw ← decode hr
    raw ← hash random pw (some conv_raw.salt) conv_raw.params
    ok (str_eq (encode raw).hash hr.hash)

  -- Parameters that Argon2id accepts.
  pub record IsUsable (p : Argon2Params) : Type 0 where
    pub in_range : InRange p
    pub time : 1 ≤ p.time
    pub threads : 1 ≤ p.threads

  -- Without a salt, one is read.
  pub hash_new :
      (random : Random) (pw : Str) (p : Argon2Params) (salt : List ℕ)
      → random p.salt_length ≡ some salt
      → hash random pw none p ≡ hash random pw (some salt) p
  unfolding hash
  hash_new random pw p salt e = rw (e, salt_or_new, get_salt) refl

  pub hash_no_salt :
      (random : Random) (pw : Str) (p : Argon2Params)
      → random p.salt_length ≡ none
      → hash random pw none p ≡ err no_random
  unfolding hash
  hash_no_salt random pw p e = rw (e, salt_or_new, get_salt) refl

  hash-IsRaw :
      (random : Random) (pw : Str) (salt : List ℕ) (p : Argon2Params)
      → IsUsable p
      → All IsByte salt
      → length salt ≡ p.salt_length
      → (k : List ℕ) × (key pw salt p ≡ some k)
        × (hash random pw (some salt) p ≡ ok (record { salt = salt; hash = k; params = p }))
        × IsRaw (record { salt = salt; hash = k; params = p })
  unfolding hash
  hash-IsRaw random pw salt p u bytes len =
      let (k, e, kb, kl) =
        argon.id_key-some pw salt p.time p.memory p.threads p.key_length u.time u.threads in
      (
        k,
        e,
        rw e refl,
        record { salt = bytes; hash = kb; params = u.in_range; salt_length = len; key_length = kl },
      )

  pub compare-parse_phc :
      (random : Random) (pw other : Str) (salt : List ℕ) (p : Argon2Params)
      → IsUsable p
      → All IsByte salt
      → length salt ≡ p.salt_length
      → (rh : RawHash) × (hash random pw (some salt) p ≡ ok rh)
        × ((hr : HashResult) × (parse_phc (encode rh).phc ≡ ok hr)
            × ((b : Bool) × (compare random other hr ≡ ok b)
                × ((b ≡ true) ↔ (key other salt p ≡ key pw salt p))))
  unfolding compare
  compare-parse_phc random pw other salt p u bytes len =
      let (k, e, made, raw) = hash-IsRaw random pw salt p u bytes len in
      let (k', e', made', raw') = hash-IsRaw random other salt p u bytes len in
      let rh : RawHash = record { salt = salt; hash = k; params = p } in
      (
        rh,
        made,
        (
          record (encode rh) { phc = [] },
          parse_phc-encode rh raw,
          (
            str_eq (encode64 k') (encode64 k),
            rw (decode-encode rh [] raw, made') (unfold encode in refl),
            same k k' e e' raw.hash raw'.hash,
          ),
        ),
      )
    where
      same :
          (k k' : List ℕ)
          → key pw salt p ≡ some k
          → key other salt p ≡ some k'
          → All IsByte k
          → All IsByte k'
          → (str_eq (encode64 k') (encode64 k) ≡ true) ↔ (key other salt p ≡ key pw salt p)
      same k k' e e' b b' = (
        λ h. e' ∙ ap some (encode64-injective k' k b' b ((Str-eq_iff _ _).0 h)) ∙ sym e,
        λ h. (Str-eq_iff _ _).1 (ap encode64 (some-injective k' k (sym e' ∙ h ∙ e))),
      )
