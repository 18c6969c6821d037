-- ===== src/Hasher/Phc/Params.antt =====
-- The parameter text of a hash is read back.
use native.Mathlib.Nat.{mod-eq_of_lt}
use local_drive.Base.{
  ℕ, strip_prefix, ◌^◌, ◌<◌, ◌≡◌, refl, ap, sym, ◌∙◌, true, false, some, [], ◌∷◌, ◌++◌, Str, text,
  ok, count, count-append, nat_eq_iff, arith, append-nil,
}
use local_drive.Base.Decimal.{
  show, is_digit, all_digits, all_digits-show, atoi-show, NonEmpty, show-NonEmpty,
}
use local_drive.Hasher.Phc.{
  Argon2Params, params_text, span_digits, digits_of, submatches, parse_argon2_param_string,
}

-- The values fit the fields' types, uint32 and uint8.
pub record InRange (p : Argon2Params) : Type 0 where
  pub time : p.time < 2 ^ 32
  pub memory : p.memory < 2 ^ 32
  pub threads : p.threads < 2 ^ 8
  pub key_length : p.key_length < 2 ^ 32

-- The text does not go on with a digit.
abbrev Stops : Str → Type 0
Stops [] = Unit {0}
Stops (c ∷ s) = is_digit c ≡ false

strip_prefix-append : (p s : Str) → strip_prefix p (p ++ s) ≡ some s
unfolding strip_prefix
strip_prefix-append [] s = refl
strip_prefix-append (c ∷ p) s = rw ((nat_eq_iff c c).1 refl) (strip_prefix-append p s)

span_digits-append : (ds s : Str) → all_digits ds ≡ true → Stops s → span_digits (ds ++ s) ≡ (ds, s)
unfolding span_digits all_digits
span_digits-append [] [] d h = refl
span_digits-append [] (c ∷ s) d h = rw h
span_digits-append (c ∷ ds) s d h = ground (arith, span_digits-append ds s)

digits_of-append :
    (ds s : Str) → NonEmpty ds → all_digits ds ≡ true → Stops s → digits_of (ds ++ s) ≡ ok (ds, s)
unfolding digits_of
digits_of-append [] s e d h = absurd e
digits_of-append (c ∷ ds) s e d h = rw (span_digits-append (c ∷ ds) s d h)

digits_of-show : (n : ℕ) (s : Str) → Stops s → digits_of (show n ++ s) ≡ ok (show n, s)
digits_of-show n s h = digits_of-append (show n) s (show-NonEmpty n) (all_digits-show n) h

digits_of-show_end : (n : ℕ) → digits_of (show n) ≡ ok (show n, [])
digits_of-show_end n = ap digits_of (sym (append-nil (show n))) ∙ digits_of-show n [] tt

submatches-params_text :
    (p : Argon2Params)
    → submatches (params_text p) ≡ ok (show p.memory, show p.time, show p.threads)
unfolding submatches params_text
submatches-params_text p =
    let tail = text ",p=" ++ show p.threads in
    let middle = text ",t=" ++ (show p.time ++ tail) in
    rw
      (
        strip_prefix-append (text "m=") (show p.memory ++ middle),
        digits_of-show p.memory middle comma_t,
        strip_prefix-append (text ",t=") (show p.time ++ tail),
        digits_of-show p.time tail comma_p,
        strip_prefix-append (text ",p=") (show p.threads),
        digits_of-show_end p.threads,
      )
      refl
  where
    comma_t : Stops (text ",t=" ++ (show p.time ++ (text ",p=" ++ show p.threads)))
    comma_t = unfold text in refl

    comma_p : Stops (text ",p=" ++ show p.threads)
    comma_p = unfold text in refl

-- The text that `Encode` prints of parameters in range is parsed to their memory, time and threads.
pub parse-params_text :
    (p : Argon2Params)
    → InRange p
    → parse_argon2_param_string (params_text p) ≡ ok (p.memory, p.time, p.threads)
unfolding parse_argon2_param_string
parse-params_text p h =
    rw
      (
        submatches-params_text p,
        atoi-show p.memory (omega (arith, h.memory)),
        atoi-show p.time (omega (arith, h.time)),
        atoi-show p.threads (omega (arith, h.threads)),
        mod-eq_of_lt h.memory,
        mod-eq_of_lt h.time,
        mod-eq_of_lt h.threads,
      )
      refl

count-digits : (s : Str) → all_digits s ≡ true → count b'$' s ≡ 0
unfolding all_digits count
count-digits [] d = refl
count-digits (c ∷ s) d = ground (arith, count-digits s)

-- The parameters hold no '$'.
pub count-params_text : (p : Argon2Params) → count b'$' (params_text p) ≡ 0
unfolding params_text text count
count-params_text p = omega (
  arith,
  count-append b'$' (show p.memory) (text ",t=" ++ (show p.time ++ (text ",p=" ++ show p.threads))),
  count-append b'$' (show p.time) (text ",p=" ++ show p.threads),
  count-digits (show p.memory) (all_digits-show p.memory),
  count-digits (show p.time) (all_digits-show p.time),
  count-digits (show p.threads) (all_digits-show p.threads),
)
