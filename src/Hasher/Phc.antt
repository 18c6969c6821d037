-- ===== src/Hasher/Phc.antt =====
-- The types of src/hasher/hasher.go, Encode, Decode, ParsePHC and parseArgon2ParamString.

pub mod Params
pub mod RoundTrip
use local_drive.Base.{
  ℕ, zero, suc, ◌+◌, ◌-◌, ◌*◌, ◌%◌, ◌^◌, Bool, true, false, not, strip_prefix, Option, none, some,
  List, [], ◌∷◌, ◌++◌, Str, text, Result, ok, err, ◌>>=◌, ◌>>◌, length, nat_eq, if◌then◌else◌,
}
use local_drive.Base.Int.{ℤ, pos, negsuc}
use local_drive.Base.Decimal.{show, atoi, is_digit}
use local_drive.Hasher.Base64.{encode64, decode64}
use local_drive.Hasher.Split.{split}

pub record Argon2Params : Type 0 where
  pub salt_length : ℕ
  pub time : ℕ
  pub memory : ℕ
  pub threads : ℕ
  pub key_length : ℕ

abbrev pub default_argon2_params : Argon2Params
default_argon2_params = record {
  salt_length = 16;
  time = 2;
  memory = 1024 * 64;
  threads = 4;
  key_length = 32;
}

pub record RawHash : Type 0 where
  pub salt : List ℕ
  pub hash : List ℕ
  pub params : Argon2Params

pub record HashResult : Type 0 where
  pub salt : Str
  pub hash : Str
  pub params : Argon2Params
  pub phc : Str

pub data HashError : Type 0 where
  invalid_length invalid_params number_conversion bad_salt bad_hash no_random panicked : HashError

-- m=<memory>,t=<time>,p=<parallelism>
unfoldable pub params_text : Argon2Params → Str
params_text p =
    text "m=" ++ (show p.memory ++ (text ",t=" ++ (show p.time ++ (text ",p=" ++ show p.threads))))

-- The format "$%s$v=%d$m=%d,t=%d,p=%d$%s$%s".
unfoldable pub phc_text : Argon2Params → Str → Str → Str
phc_text p salt hash =
    b'$'
    ∷ (text "argon2id"
        ++ (b'$' ∷ (text "v=19" ++ (b'$' ∷ (params_text p ++ (b'$' ∷ (salt ++ (b'$' ∷ hash))))))))

unfoldable pub encode : RawHash → HashResult
encode rh =
    let salt = encode64 rh.salt in
    let hash = encode64 rh.hash in
    record { salt = salt; hash = hash; params = rh.params; phc = phc_text rh.params salt hash }

or_error {ℓ} : {A : Type ℓ} → HashError → Option A → Result HashError A
or_error e none = err e
or_error e (some a) = ok a

unfoldable pub decode : HashResult → Result HashError RawHash
unfolding or_error
decode hr = do
  salt ← or_error bad_salt (decode64 hr.salt)
  hash ← or_error bad_hash (decode64 hr.hash)
  ok (record { salt = salt; hash = hash; params = hr.params })

push : ℕ → Str × Str → Str × Str
push c (ds, s) = (c ∷ ds, s)

-- The longest run of digits, and the rest.
unfoldable pub span_digits : Str → Str × Str
unfolding push
span_digits [] = ([], [])
span_digits (c ∷ s) = let more = push c (span_digits s) in if is_digit c then more else ([], c ∷ s)

-- `[0-9]+`
non_empty_digits : Str × Str → Result HashError (Str × Str)
non_empty_digits ([], s) = err invalid_params
non_empty_digits (c ∷ ds, s) = ok (c ∷ ds, s)

unfoldable pub digits_of : Str → Result HashError (Str × Str)
unfolding non_empty_digits
digits_of s = non_empty_digits (span_digits s)

-- `$`, the end of the text
at_end : Str → Result HashError (Unit {0})
at_end [] = ok tt
at_end (c ∷ s) = err invalid_params

-- The submatches of ^m=([0-9]+),t=([0-9]+),p=([0-9]+)$. No group holds what follows it, so the
-- longest runs are the only match.
unfoldable pub submatches : Str → Result HashError (Str × Str × Str)
unfolding or_error at_end
submatches s = do
  s ← or_error invalid_params (strip_prefix (text "m=") s)
  (memory, s) ← digits_of s
  s ← or_error invalid_params (strip_prefix (text ",t=") s)
  (time, s) ← digits_of s
  s ← or_error invalid_params (strip_prefix (text ",p=") s)
  (threads, s) ← digits_of s
  at_end s
  ok (memory, time, threads)

-- uint32(n) and uint8(n) of an int
abbrev pub to_uint : ℕ → ℤ → ℕ
to_uint width (pos n) = n % 2 ^ width
to_uint width (negsuc n) = 2 ^ width - 1 - n % 2 ^ width

-- memory, time and threads
unfoldable pub parse_argon2_param_string : Str → Result HashError (ℕ × ℕ × ℕ)
unfolding or_error
parse_argon2_param_string param_str = do
  (memory_str, time_str, threads_str) ← submatches param_str
  memory ← or_error number_conversion (atoi memory_str)
  time ← or_error number_conversion (atoi time_str)
  threads ← or_error number_conversion (atoi threads_str)
  ok (to_uint 32 memory, to_uint 32 time, to_uint 8 threads)

-- The last three of the six parts are read.
parse_parts : List Str → Result HashError HashResult
unfolding or_error
parse_parts (_ ∷ _ ∷ _ ∷ param_str ∷ salt ∷ hash ∷ []) = do
  (memory, time, threads) ← parse_argon2_param_string param_str
  decoded_salt ← or_error bad_salt (decode64 salt)
  decoded_hash ← or_error bad_hash (decode64 hash)
  ok (record {
    salt = salt;
    hash = hash;
    params = record {
      salt_length = length decoded_salt;
      time = time;
      memory = memory;
      threads = threads;
      key_length = length decoded_hash % 2 ^ 32;
    };
    phc = [];
  })
parse_parts _ = err invalid_length

unfoldable pub parse_phc : Str → Result HashError HashResult
unfolding parse_parts
parse_phc phc = parse_parts (split b'$' phc)
