-- ===== src/Hasher/Phc/RoundTrip.antt =====
-- ParsePHC of what Encode writes, and Decode of it.
use native.Mathlib.Nat.{mod-eq_of_lt}
use local_drive.Base.{◌≡◌, refl, ap, ◌∙◌, [], ◌∷◌, Str, text, ok, count, All, length}
use local_drive.Hasher.Base64.{IsByte, encode64}
use local_drive.Hasher.Base64.RoundTrip.{decode64-encode64, count-encode64}
use local_drive.Hasher.Split.{split, split_part, split_last}
use local_drive.Hasher.Phc.{Argon2Params, RawHash, phc_text, params_text, encode, decode, parse_phc}
use local_drive.Hasher.Phc.Params.{InRange, parse-params_text, count-params_text}

-- A raw hash as `Hash` makes it: bytes, and parameters within their types that give its lengths.
pub record IsRaw (rh : RawHash) : Type 0 where
  pub salt : All IsByte rh.salt
  pub hash : All IsByte rh.hash
  pub params : InRange rh.params
  pub salt_length : length rh.salt ≡ rh.params.salt_length
  pub key_length : length rh.hash ≡ rh.params.key_length

-- Six parts, the first empty.
split-phc_text :
    (p : Argon2Params) (salt hash : Str)
    → count b'$' salt ≡ 0
    → count b'$' hash ≡ 0
    → split b'$' (phc_text p salt hash)
      ≡ [] ∷ text "argon2id" ∷ text "v=19" ∷ params_text p ∷ salt ∷ hash ∷ []
unfolding phc_text
split-phc_text p salt hash h h' =
    split_part b'$' [] _ none_in_nil
    ∙ ap (◌∷◌ []) (
        split_part b'$' (text "argon2id") _ none_in_name
        ∙ ap (◌∷◌ (text "argon2id")) (
            split_part b'$' (text "v=19") _ none_in_version
            ∙ ap (◌∷◌ (text "v=19")) (
                split_part b'$' (params_text p) _ (count-params_text p)
                ∙ ap (◌∷◌ (params_text p))
                    (split_part b'$' salt _ h ∙ ap (◌∷◌ salt) (split_last b'$' hash h')))))
  where
    none_in_nil : count b'$' [] ≡ 0
    none_in_nil = unfold count in refl

    none_in_name : count b'$' (text "argon2id") ≡ 0
    none_in_name = unfold count text in refl

    none_in_version : count b'$' (text "v=19") ≡ 0
    none_in_version = unfold count text in refl

-- The PHC text that `Encode` writes of a raw hash, of any bytes, with parameters in range that give
-- its lengths, is parsed to the same salt, hash and parameters; the PHC text itself is not kept.
pub parse_phc-encode :
    (rh : RawHash) → IsRaw rh → parse_phc (encode rh).phc ≡ ok (record (encode rh) { phc = [] })
unfolding parse_phc encode
parse_phc-encode rh h =
    rw
      (
        split-phc_text rh.params (encode64 rh.salt) (encode64 rh.hash)
            (count-encode64 rh.salt h.salt) (count-encode64 rh.hash h.hash),
        parse-params_text rh.params h.params,
        decode64-encode64 rh.salt h.salt,
        decode64-encode64 rh.hash h.hash,
        h.salt_length,
        h.key_length,
        mod-eq_of_lt h.params.key_length,
      )
      refl

-- `Decode` gives back a raw hash of bytes, with parameters in range that give its lengths, from what
-- `Encode` makes of it, whatever PHC text stands there.
pub decode-encode :
    (rh : RawHash) (phc : Str) → IsRaw rh → decode (record (encode rh) { phc = phc }) ≡ ok rh
unfolding decode encode
decode-encode rh phc h =
    rw (decode64-encode64 rh.salt h.salt, decode64-encode64 rh.hash h.hash) refl
