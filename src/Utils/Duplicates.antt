-- ===== src/Utils/Duplicates.antt =====
-- What RemoveDuplicates keeps: the first of the values that are equal.
use local_drive.Base.{
  Comparable, ◌==◌, ◌≡◌, refl, sym, ap, subst, ◌∙◌, Bool, true, false, not, ◌&&◌, ◌||◌, Bool-cases,
  inl, inr, Option, none, some, Option-cases, List, [], ◌∷◌, ◌++◌, append_assoc, append-nil, find,
  insert, find-insert, if◌then◌else◌, arith,
}
use local_drive.Utils.{remove_from, remove_duplicates}

is_seen : Option (Unit {0}) → Bool
is_seen none = false
is_seen (some _) = true

module _ {T : Type 0} ⦃e : Comparable T⦄ where
  abbrev pub contains : T → List T → Bool
  contains v [] = false
  contains v (x ∷ xs) = x == v || contains v xs

  -- The values that are not before them.
  abbrev pub firsts : List T → List T → List T
  firsts before [] = []
  firsts before (v ∷ s) =
      if contains v before then firsts before s else v ∷ firsts (before ++ (v ∷ [])) s

  contains-append :
      (v : T) (xs ys : List T) → contains v (xs ++ ys) ≡ (contains v xs || contains v ys)
  contains-append v [] ys = refl
  contains-append v (x ∷ xs) ys = ground (arith, contains-append v xs ys)

  -- The values seen are those of the slice.
  abbrev IsSeen : List (T × Unit {0}) → List T → Type 0
  IsSeen seen slice = (v : T) → is_seen (find v seen) ≡ contains v slice

  IsSeen-insert :
      (v : T) (seen : List (T × Unit {0})) (slice : List T)
      → IsSeen seen slice
      → IsSeen (insert v tt seen) (slice ++ (v ∷ []))
  unfolding is_seen
  IsSeen-insert v seen slice h x =
      ground (arith, find-insert v x tt seen, h x, contains-append x slice (v ∷ []))

  remove_from-firsts :
      (s : List T) (seen : List (T × Unit {0})) (slice : List T)
      → IsSeen seen slice
      → remove_from seen slice s ≡ slice ++ firsts slice s
  unfolding remove_from is_seen
  remove_from-firsts [] seen slice h = sym (append-nil slice)
  remove_from-firsts (v ∷ s) seen slice h = elim (Option-cases (find v seen)) [
    | inl new ↦
        let out : contains v slice ≡ false = sym (h v) ∙ ap is_seen new in
        rw (new, remove_from, out)
          (remove_from-firsts s (insert v tt seen) (slice ++ (v ∷ []))
              (IsSeen-insert v seen slice h)
            ∙ append_assoc slice (v ∷ []) (firsts (slice ++ (v ∷ [])) s))
    | inr (u, old) ↦
        let out : contains v slice ≡ true = sym (h v) ∙ ap is_seen old in
        rw (old, remove_from, out) (remove_from-firsts s seen slice h)
  ]

  contains-firsts :
      (v : T) (s before : List T)
      → contains v (firsts before s) ≡ (contains v s && not (contains v before))
  contains-firsts v [] before = refl
  contains-firsts v (x ∷ s) before = ground (
    arith,
    e.same_iff x v,
    contains-firsts v s before,
    contains-firsts v s (before ++ (x ∷ [])),
    contains-append v before (x ∷ []),
    contains-append x before (x ∷ []),
  )

  -- No value stands twice.
  abbrev pub IsDistinct : List T → Type 0
  IsDistinct [] = Unit
  IsDistinct (x ∷ xs) = (contains x xs ≡ false) × IsDistinct xs

  firsts-IsDistinct : (s before : List T) → IsDistinct (firsts before s)
  firsts-IsDistinct [] before = tt
  firsts-IsDistinct (x ∷ s) before = elim (Bool-cases (contains x before)) [
    | inl old ↦ rw old (firsts-IsDistinct s before)
    | inr new ↦ rw new (
      ground (
        arith,
        e.same_iff x x,
        contains-firsts x s (before ++ (x ∷ [])),
        contains-append x before (x ∷ []),
      ),
      firsts-IsDistinct s (before ++ (x ∷ [])),
    )
  ]

  -- RemoveDuplicates gives the first of each of the values, in their order: no value twice, and those
  -- that are in the slice.
  pub remove_duplicates-firsts :
      (s : List T)
      → (remove_duplicates s ≡ firsts [] s)
        × IsDistinct (remove_duplicates s)
        × ((v : T) → contains v (remove_duplicates s) ≡ contains v s)
  unfolding remove_duplicates find is_seen
  remove_duplicates-firsts s =
      let same = remove_from-firsts s [] [] (λ v. refl) in
      (
        same,
        subst IsDistinct (sym same) (firsts-IsDistinct s []),
        λ v. ap (contains v) same ∙ ground (arith, contains-firsts v s []),
      )
