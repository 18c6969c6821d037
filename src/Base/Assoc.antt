-- ===== src/Base/Assoc.antt =====
-- Go maps as association lists. No code iterates over a map, so the order is not modelled.
use Prim.Native.Nat.{◌+◌, ◌≤◌}
use mathlib.Core.Path.{◌≡◌, refl}
use mathlib.Core.Logic.{◌≢◌, ◌⊎◌}
use mathlib.Core.Option.{Option, none, some}
use mathlib.Core.List.{List, [], ◌∷◌}
use native.Mathlib.Omega.{arith}
use local_drive.Base.Tests.{Comparable, ◌==◌, if◌then◌else◌}
use local_drive.Base.Lists.{length}

module _ {ℓ κ} {K : Type ℓ} {V : Type κ} ⦃e : Comparable K⦄ where
  -- m[key]
  unfoldable pub find : K → List (K × V) → Option V
  find key [] = none
  find key ((k, value) ∷ rest) = if k == key then some value else find key rest

  -- m[key] = value
  unfoldable pub insert : K → V → List (K × V) → List (K × V)
  insert key value [] = (key, value) ∷ []
  insert key value ((k, old) ∷ rest) =
      if k == key then (key, value) ∷ rest else (k, old) ∷ insert key value rest

  -- delete(m, key)
  unfoldable pub remove : K → List (K × V) → List (K × V)
  remove key [] = []
  remove key ((k, old) ∷ rest) =
      let left = remove key rest in if k == key then left else (k, old) ∷ left

  pub find-insert :
      (k j : K) (v : V) (m : List (K × V))
      → find j (insert k v m) ≡ (if k == j then some v else find j m)
  unfolding find insert
  find-insert k j v [] = refl
  find-insert k j v ((i, w) ∷ m) =
      ground (arith, e.same_iff k j, e.same_iff i k, e.same_iff i j, find-insert k j v m)

  pub find-insert_self : (k : K) (v : V) (m : List (K × V)) → find k (insert k v m) ≡ some v
  find-insert_self k v m = ground (arith, find-insert k k v m, e.same_iff k k)

  pub find-insert_ne :
      (k j : K) (v : V) (m : List (K × V)) → k ≢ j → find j (insert k v m) ≡ find j m
  find-insert_ne k j v m h = ground (arith, find-insert k j v m, e.same_iff k j)

  pub find-remove :
      (k j : K) (m : List (K × V)) → find j (remove k m) ≡ (if k == j then none else find j m)
  unfolding find remove
  find-remove k j [] = ground arith
  find-remove k j ((i, w) ∷ m) =
      ground (arith, e.same_iff k j, e.same_iff i k, e.same_iff i j, find-remove k j m)

  pub find-remove_self : (k : K) (m : List (K × V)) → find k (remove k m) ≡ none
  find-remove_self k m = ground (arith, find-remove k k m, e.same_iff k k)

  pub find-remove_ne : (k j : K) (m : List (K × V)) → k ≢ j → find j (remove k m) ≡ find j m
  find-remove_ne k j m h = ground (arith, find-remove k j m, e.same_iff k j)

  -- What is found after a write was written or was there.
  pub find-insert_cases :
      (k j : K) (v w : V) (m : List (K × V))
      → find j (insert k v m) ≡ some w
      → (v ≡ w) ⊎ (find j m ≡ some w)
  find-insert_cases k j v w m h = ground (arith, find-insert k j v m)

  pub find-insert_keys :
      (k j : K) (v w : V) (m : List (K × V))
      → find j (insert k v m) ≡ some w
      → (k ≡ j) ⊎ (find j m ≡ some w)
  find-insert_keys k j v w m h = ground (arith, find-insert k j v m, e.same_iff k j)

  -- What is found after a deletion was there.
  pub find-remove-some :
      (k j : K) (w : V) (m : List (K × V)) → find j (remove k m) ≡ some w → find j m ≡ some w
  find-remove-some k j w m h = ground (arith, find-remove k j m)

  pub length-insert-le : (k : K) (v : V) (m : List (K × V)) → length (insert k v m) ≤ length m + 1
  unfolding insert
  length-insert-le k v [] = omega arith
  length-insert-le k v ((i, w) ∷ m) = ground (arith, length-insert-le k v m)

  -- A write under a key of the map keeps its length.
  pub length-insert_old :
      (k : K) (v w : V) (m : List (K × V)) → find k m ≡ some w → length (insert k v m) ≡ length m
  unfolding insert find
  length-insert_old k v w [] h = cc
  length-insert_old k v w ((i, x) ∷ m) h = ground (arith, length-insert_old k v w m)

  -- A write under a new key makes the map longer.
  pub length-insert :
      (k : K) (v : V) (m : List (K × V)) → find k m ≡ none → length (insert k v m) ≡ length m + 1
  unfolding insert find
  length-insert k v [] h = omega arith
  length-insert k v ((i, w) ∷ m) h = ground (arith, length-insert k v m)
