-- ===== src/Sql/Arity.antt =====
-- A built query has a placeholder for each of its arguments, but for the `Is` conditions.
mod Conditions
use local_drive.Base.{
  ℕ, ◌+◌, ◌≡◌, refl, ap, sym, subst, ◌∙◌, List, [], ◌∷◌, ◌++◌, Str, text, join, count, count_all,
  count-append, count-join, length, length-append, All, append_assoc, append-nil, arith, ok, some,
}
use local_drive.Sql.Placeholder.{Arg, str, question, build_placeholder, question-build_placeholder}
use local_drive.Sql.Node.{
  ConditionNode, LogicalOperator, and, or, unset, ComparisonOperator, build_query,
  new_condition_node,
}
use local_drive.Sql.Clause.{
  Builder, ConditionClause, connective, parts, build_condition_string, set_last, build_clause,
  add_new_node, query_builder_build, new_condition_clause,
}
use local_drive.Sql.Clause
use local_drive.Sql.Statement.{Statement}
use local_drive.Sql.Calls.{
  Call, equal_to, is_value, in_values, exists_in, and_then, or_else, call, calls, values,
  all_values, IsPlain, is_is, is_calls,
}
use local_drive.Sql.Arity.Conditions.{
  Rendered, nil, parts-question, Rendered-set_last, Rendered-snoc, Renders-equal, Renders-is,
  Renders-in, Renders-exists,
}

-- How a call changes the placeholders of a clause: one for each value, but none for `Is`.
abbrev Adds : {B : Type 0} → ConditionClause B → ConditionClause B → Call → Type 0
Adds c d k =
    (i : ℕ)
    → Rendered c.nodes i
    → (j : ℕ) × Rendered d.nodes j × (j + is_is k ≡ i + length (values k))

module _ {B : Type 0} ⦃b : Builder B⦄ where
  call-Adds : (k : Call) → IsPlain k → (c : ConditionClause B) → Adds c (call k c) k
  unfolding call Clause.equal_to Clause.is_value Clause.in_values Clause.exists_in Clause.and_then
      Clause.or_else add_new_node
  call-Adds (equal_to column arg) h c i r =
      (i + 1, Rendered-snoc _ 1 (Renders-equal column arg h) r, omega arith)
  call-Adds (is_value column arg) h c i r =
      (i + 0, Rendered-snoc _ 0 (Renders-is column arg h.0 h.1) r, omega arith)
  call-Adds (in_values column args) h c i r =
      (i + length args, Rendered-snoc _ (length args) (Renders-in column args h) r, omega arith)
  call-Adds (exists_in subquery args) h c i r = (
    i + length args,
    Rendered-snoc _ (length args) (Renders-exists subquery args h) r,
    omega arith,
  )
  call-Adds and_then h c i r = (i, Rendered-set_last and c.nodes r, omega arith)
  call-Adds or_else h c i r = (i, Rendered-set_last or c.nodes r, omega arith)

  calls-Adds :
      (ks : List Call)
      → All IsPlain ks
      → (c : ConditionClause B) (i : ℕ) → Rendered c.nodes i
      → (j : ℕ) × Rendered (calls ks c).nodes j × (j + is_calls ks ≡ i + length (all_values ks))
  unfolding calls
  calls-Adds [] h c i r = (i, r, omega arith)
  calls-Adds (k ∷ ks) h c i r =
      let (j, r', e) = call-Adds k h.0 c i r in
      let (l, r'', e') = calls-Adds ks h.1 (call k c) j r' in
      (l, r'', omega (arith, e, e', length-append (values k) (all_values ks)))

  module _ (st : Statement B) where
    given-call :
        (k : Call) (c : ConditionClause B)
        → (st.given (call k c).builder ≡ st.given c.builder ++ values k)
          × (st.main (call k c).builder ≡ st.main c.builder)
    unfolding call Clause.equal_to Clause.is_value Clause.in_values Clause.exists_in Clause.and_then
        Clause.or_else add_new_node
    given-call (equal_to column arg) c = (st.given-write _ _, st.main-write _ _)
    given-call (is_value column arg) c = (st.given-write _ _, st.main-write _ _)
    given-call (in_values column args) c = (st.given-write _ _, st.main-write _ _)
    given-call (exists_in subquery args) c = (st.given-write _ _, st.main-write _ _)
    given-call and_then c = (sym (append-nil _), refl)
    given-call or_else c = (sym (append-nil _), refl)

    pub given-calls :
        (ks : List Call) (c : ConditionClause B)
        → (st.given (calls ks c).builder ≡ st.given c.builder ++ all_values ks)
          × (st.main (calls ks c).builder ≡ st.main c.builder)
    unfolding calls
    given-calls [] c = (sym (append-nil _), refl)
    given-calls (k ∷ ks) c =
        let (e, f) = given-call k c in
        let (e', f') = given-calls ks (call k c) in
        (
          e'
              ∙ ap (λ l. l ++ all_values ks) e
              ∙ append_assoc (st.given c.builder) (values k) (all_values ks),
          f' ∙ f,
        )

    question-query_builder_build :
        (main filter : Str)
        → count question (query_builder_build main (some (text "WHERE " ++ filter)))
          ≡ count question main + count question filter
    unfolding query_builder_build count text
    question-query_builder_build main filter =
        count-join question (text " ") (main ∷ (text "WHERE " ++ filter) ∷ []) refl
        ∙ omega (arith, count-append question (text "WHERE ") filter)

    -- The chain always builds; its arguments are the statement's, then the calls' in their order; its
    -- placeholders and the `Is` calls together are as many as those of the statement and the values.
    pub build_clause-calls :
        (ks : List Call)
        → All IsPlain ks
        → (s : B)
        → (q : Str) × (build_clause (calls ks (new_condition_clause s))
            ≡ ok (q, st.given s ++ all_values ks))
          × (count question q + is_calls ks ≡ count question (st.main s) + length (all_values ks))
    unfolding build_clause build_condition_string new_condition_clause count text
    build_clause-calls ks h s =
        let c = calls ks (new_condition_clause s) in
        let (j, r, e) = calls-Adds ks h (new_condition_clause s) 0 nil in
        let (out, e', n) = parts-question r in
        let (g, m) = given-calls ks (new_condition_clause s) in
        (
          query_builder_build (st.main c.builder) (some (text "WHERE " ++ join (text " ") out)),
          rw (e', st.build-main, g) refl,
          omega (
            arith,
            e,
            n,
            ap (count question) m,
            question-query_builder_build (st.main c.builder) (join (text " ") out),
            count-join question (text " ") out refl,
          ),
        )
