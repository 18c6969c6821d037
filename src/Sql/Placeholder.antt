-- ===== src/Sql/Placeholder.antt =====
-- src/sqlquery/utils.go, and the values that a query is given.
use local_drive.Base.{
  ℕ, zero, suc, ◌*◌, ◌≡◌, refl, ap, ◌∙◌, Bool, List, [], ◌∷◌, ◌++◌, map, Str, text, join, count,
  count_all, count-append, count-join, length, replicate, ltb, if◌then◌else◌, arith,
}
use local_drive.Base.Int.{ℤ}

-- A Go `any` that is given as a query argument.
pub data Arg : Type 0 where
  str : Str → Arg
  int : ℤ → Arg
  flag : Bool → Arg
  time : ℕ → Arg
  null : Arg

-- The byte of '?'.
abbrev pub question : ℕ
question = 63

param : ℕ → Str
param n = text "(" ++ (join (text ",") (replicate n (text "?")) ++ text ")")

-- Both numbers are lengths or quotients of lengths in the callers, so neither is negative.
unfoldable pub build_placeholder : ℕ → ℕ → Str
unfolding param
build_placeholder placeholder_count repeat =
    let repeat' = if ltb repeat 1 then 1 else repeat in
    join (text ",") (replicate repeat' (param placeholder_count))

set_column : Str → Str
set_column column = column ++ text " = ?"

unfoldable pub build_set_placeholder : List Str → Str
unfolding set_column
build_set_placeholder columns = join (text ",") (map set_column columns)

count_all-replicate : (c n : ℕ) (s : Str) → count_all c (replicate n s) ≡ n * count c s
count_all-replicate c zero s = omega arith
count_all-replicate c (suc n) s = omega (arith, count_all-replicate c n s)

count-param : (n : ℕ) → count question (param n) ≡ n
unfolding param count text
count-param n = omega (
  arith,
  count-append question (join (text ",") (replicate n (text "?"))) (text ")"),
  count-join question (text ",") (replicate n (text "?")) refl,
  count_all-replicate question n (text "?"),
)

-- `repeat` groups of placeholders, and one group where `repeat` is 0.
pub question-build_placeholder :
    (n repeat : ℕ)
    → count question (build_placeholder n repeat) ≡ (if ltb repeat 1 then 1 else repeat) * n
unfolding build_placeholder count text
question-build_placeholder n repeat =
    let r = if ltb repeat 1 then 1 else repeat in
    count-join question (text ",") (replicate r (param n)) refl
    ∙ count_all-replicate question r (param n)
    ∙ ap (◌*◌ r) (count-param n)

-- One placeholder for each column.
pub question-build_set_placeholder :
    (columns : List Str)
    → count_all question columns ≡ 0
    → count question (build_set_placeholder columns) ≡ length columns
unfolding build_set_placeholder text count
question-build_set_placeholder columns h =
    count-join question (text ",") (map set_column columns) refl ∙ each columns h
  where
    each :
        (cs : List Str)
        → count_all question cs ≡ 0
        → count_all question (map set_column cs) ≡ length cs
    each [] k = refl
    each (c ∷ cs) k = omega (arith, count-append question c (text " = ?"), each cs (omega arith))
