-- ===== src/Sql/Built.antt =====
-- What the three statements build: the text's placeholders against the arguments, the errors.
use native.Mathlib.Nat.{div-add-mod}
use local_drive.Base.{
  Bool-cases, append-nil, false, nat_eq_iff, ltb→lt, ltb-false, true, ℕ, suc, ◌+◌, ◌*◌, ◌/◌, ◌%◌,
  ◌≡◌, ◌≢◌, refl, ap, ◌∙◌, ◌⊎◌, inl, inr, List, [], ◌∷◌, ◌++◌, Str, text, join, count, count_all,
  count-append, count-join, length, length-append, All, Result, ok, err, none, nat_eq,
  if◌then◌else◌, arith, ltb,
}
use local_drive.Sql.Placeholder.{
  Arg, question, build_placeholder, question-build_placeholder, build_set_placeholder,
  question-build_set_placeholder,
}
use local_drive.Sql.Node.{BuildError, insert_zero_columns, insert_invalid_arg_count}
use local_drive.Sql.Clause.{build_clause, query_builder_build}
use local_drive.Sql.Select.{select, select_query, select_where, select_builder}
use local_drive.Sql.Insert.{insert_into, insert_query, build_columns, build_insert}
use local_drive.Sql.Update.{update, update_query, update_where, write_update, update_builder}
use local_drive.Sql.Statement.{select_statement, update_statement}
use local_drive.Sql.Calls.{Call, calls, all_values, IsPlain, is_calls}
use local_drive.Sql.Arity.{build_clause-calls}

question-select_query :
    (table : Str) (columns : List Str)
    → count question table ≡ 0
    → count_all question columns ≡ 0
    → count question (select_query (select table columns)) ≡ 0
unfolding select select_query count text join
question-select_query table [] h h' = omega (arith, h)
question-select_query table (c ∷ cs) h h' = omega (
  arith,
  count-append question (join (text ",") (c ∷ cs)) (text " FROM " ++ table),
  count-join question (text ",") (c ∷ cs) refl,
)

-- Conditions are plain where no column and no value of an `Is` has a '?', and a subquery has as many
-- as it is given values. For a table and columns without '?', and whatever plain conditions are
-- chained, a SELECT builds;
-- its arguments are the conditions' values in the order of the calls, and it has a placeholder for
-- each of them except for one missing for every `Is`.
pub select-build_clause :
    (table : Str) (columns : List Str) (ks : List Call)
    → count question table ≡ 0
    → count_all question columns ≡ 0
    → All IsPlain ks
    → (q : Str) × (build_clause (calls ks (select_where (select table columns)))
        ≡ ok (q, all_values ks))
      × (count question q + is_calls ks ≡ length (all_values ks))
unfolding select_where select
select-build_clause table columns ks h h' plain =
    let (q, e, n) = build_clause-calls select_statement ks plain (select table columns) in
    (q, e, omega (arith, n, question-select_query table columns h h'))

question-update_query :
    (table : Str) (columns : List Str) (args : List Arg)
    → count question table ≡ 0
    → count_all question columns ≡ 0
    → count question (update_query (update table columns args)) ≡ length columns
unfolding update update_query write_update count text
question-update_query table columns args h h' = omega (
  arith,
  count-append question table (text " SET " ++ build_set_placeholder columns),
  question-build_set_placeholder columns h',
)

-- For a table and columns without '?', a value for each column, and whatever plain conditions (no '?'
-- in a column or a value of an `Is`, as many in a subquery as it is given values) are chained, an
-- UPDATE builds; its arguments are the columns' values and then the conditions', and it
-- has a placeholder for each of them except for one missing for every `Is`.
pub update-build_clause :
    (table : Str) (columns : List Str) (args : List Arg) (ks : List Call)
    → count question table ≡ 0
    → count_all question columns ≡ 0
    → length args ≡ length columns
    → All IsPlain ks
    → (q : Str) × (build_clause (calls ks (update_where (update table columns args)))
        ≡ ok (q, args ++ all_values ks))
      × (count question q + is_calls ks ≡ length (args ++ all_values ks))
unfolding update_where update write_update
update-build_clause table columns args ks h h' k plain =
    let (q, e, n) = build_clause-calls update_statement ks plain (update table columns args) in
    (
      q,
      e,
      omega (
        arith,
        n,
        question-update_query table columns args h h',
        length-append args (all_values ks),
      ),
    )

-- Whole rows, and one where there are none.
rows-mul :
    (a n : ℕ)
    → a % suc n ≡ 0
    → (if ltb (a / suc n) 1 then 1 else a / suc n) * suc n ≡ (if nat_eq a 0 then suc n else a)
rows-mul a n h =
    let whole : a / suc n * suc n ≡ a = grind (arith, div-add-mod a (suc n)) in
    elim (Bool-cases (ltb (a / suc n) 1)) [
      | inl few ↦
          rw few (ground (arith, whole, ltb→lt _ _ few, ap (λ (t : ℕ). t * suc n) (none_left few)))
      | inr more ↦ rw more (ground (arith, whole, ltb-false _ _ more))
    ]
  where
    none_left : ltb (a / suc n) 1 ≡ true → a / suc n ≡ 0
    none_left few = omega (arith, ltb→lt _ _ few)

question-insert_query :
    (table : Str) (c : Str) (cs : List Str) (args : List Arg)
    → count question table ≡ 0
    → count_all question (c ∷ cs) ≡ 0
    → length args % suc (length cs) ≡ 0
    → count question (insert_query (insert_into table (c ∷ cs) args))
      ≡ (if nat_eq (length args) 0 then suc (length cs) else length args)
unfolding insert_query insert_into build_columns count text
question-insert_query table c cs args h h' k =
    let m = text "INSERT INTO " ++ table in
    let r = length args / suc (length cs) in
    count-join question (text " ")
      (m ∷ build_columns (c ∷ cs) ∷ (text "VALUES " ++ build_placeholder (suc (length cs)) r) ∷ [])
      refl
    ∙ omega (
      arith,
      h,
      h',
      count-append question (join (text ",") (c ∷ cs)) (text ")"),
      count-join question (text ",") (c ∷ cs) refl,
      question-build_placeholder (suc (length cs)) r,
    )
    ∙ rows-mul (length args) (length cs) k

nat_eq-suc : (n : ℕ) → nat_eq (suc n) 0 ≡ false
nat_eq-suc n = ground arith

-- A statement without a clause is its own text.
build_main : (main : Str) → query_builder_build main none ≡ main
unfolding query_builder_build join
build_main main = append-nil main

-- What `Build` of an INSERT may return of given columns and arguments.
abbrev pub Inserts : List Str → List Arg → Result BuildError (Str × List Arg) → Type 0
Inserts [] args r = r ≡ err insert_zero_columns
Inserts (c ∷ cs) args r =
    ((length args % suc (length cs) ≢ 0) × (r ≡ err insert_invalid_arg_count))
    ⊎ ((length args % suc (length cs) ≡ 0)
        × ((q : Str) × (r ≡ ok (q, args))
            × (count question q
                ≡ (if nat_eq (length args) 0 then suc (length cs) else length args))))

-- For a table and columns without '?', `Build` of an INSERT returns an error without columns, an error
-- where the arguments do not fill whole rows, and otherwise the arguments as they were given, with a
-- text that has as many placeholders as there are arguments, or one row of them if there are none.
pub build_insert-Inserts :
    (table : Str) (columns : List Str) (args : List Arg)
    → count question table ≡ 0
    → count_all question columns ≡ 0
    → Inserts columns args (build_insert (insert_into table columns args))
unfolding build_insert insert_into
build_insert-Inserts table [] args h h' = refl
build_insert-Inserts table (c ∷ cs) args h h' =
    elim (Bool-cases (nat_eq (length args % suc (length cs)) 0)) [
      | inl whole ↦
          let k = (nat_eq_iff (length args % suc (length cs)) 0).0 whole in
          inr (
            k,
            (
              _,
              rw (nat_eq-suc (length cs), whole, build_main) refl,
              question-insert_query table c cs args h h' k,
            ),
          )
      | inr odd ↦ inl (
        λ k. cc (odd, (nat_eq_iff (length args % suc (length cs)) 0).1 k),
        rw (nat_eq-suc (length cs), odd) refl,
      )
    ]
