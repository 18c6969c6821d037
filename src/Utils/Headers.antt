-- ===== src/Utils/Headers.antt =====
-- When CheckRequestHeaderNotEmpty finds no fault.
use local_drive.Base.{
  ◌≡◌, ◌↔◌, refl, false, Bool-cases, inl, inr, List, [], ◌∷◌, Str, All, ok, arith,
}
use local_drive.Base.Spaces.{is_empty, trim_space}
use local_drive.Utils.{missing_headers, missing_error, check_request_header_not_empty}

module _ (get : Str → Str) where
  -- The key has a value that is more than spaces.
  abbrev pub IsFilled : Str → Type 0
  IsFilled k = is_empty (trim_space (get k)) ≡ false

  missing_headers-none : (keys : List Str) → (missing_headers get keys ≡ []) ↔ All IsFilled keys
  unfolding missing_headers
  missing_headers-none [] = ((λ h. tt), λ h. refl)
  missing_headers-none (k ∷ keys) = elim (Bool-cases (is_empty (trim_space (get k)))) [
    | inl blank ↦ ((λ h. absurd (ground (arith, blank, h))), λ h. absurd (ground (arith, blank, h)))
    | inr filled ↦
        rw filled
          ((λ h. (refl, (missing_headers-none keys).0 h)), λ h. (missing_headers-none keys).1 h.1)
  ]

  missing_error-ok : (missing : List Str) → (missing_error missing ≡ ok tt) ↔ (missing ≡ [])
  unfolding missing_error
  missing_error-ok [] = ((λ h. refl), λ h. refl)
  missing_error-ok (k ∷ missing) = ((λ h. cc), λ h. cc)

  -- CheckRequestHeaderNotEmpty returns no error exactly when every key has a value that is more than
  -- spaces.
  check_request_header_not_empty_iff :
      (keys : List Str) → (check_request_header_not_empty get keys ≡ ok tt) ↔ All IsFilled keys
  unfolding check_request_header_not_empty
  check_request_header_not_empty_iff keys = (
    λ h. (missing_headers-none keys).0 ((missing_error-ok (missing_headers get keys)).0 h),
    λ h. (missing_error-ok (missing_headers get keys)).1 ((missing_headers-none keys).1 h),
  )
