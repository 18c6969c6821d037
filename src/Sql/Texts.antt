-- ===== src/Sql/Texts.antt =====
-- The text of a built statement does not depend on the values that it is given.
use mathlib.Core.Path.{fun_ext}
use local_drive.Base.{
  ◌≡◌, refl, sym, ap, ◌∙◌, List, [], ◌∷◌, ◌++◌, map, Str, text, join, length-map, Result, ok, err,
  ◌>>=◌, some,
}
use local_drive.Sql.Placeholder.{Arg, null, build_placeholder}
use local_drive.Sql.Node.{
  ConditionNode, ComparisonOperator, LogicalOperator, BuildError, build_query, new_condition_node,
}
use local_drive.Sql.Clause.{
  Builder, ConditionClause, connective, parts, build_condition_string, set_last, build_clause,
  add_new_node, query_builder_build, new_condition_clause,
}
use local_drive.Sql.Clause
use local_drive.Sql.Select.{select, select_where, select_builder}
use local_drive.Sql.Update.{update, update_where, update_query, write_update, update_builder}
use local_drive.Sql.Statement.{Statement, select_statement, update_statement}
use local_drive.Sql.Calls.{
  Call, equal_to, is_value, in_values, exists_in, and_then, or_else, call, calls,
}
use local_drive.Sql.Arity.{given-calls}

-- A call with nulls for the values that it passes to the database; `Is` passes none.
abbrev pub bare : Call → Call
bare (equal_to column arg) = equal_to column null
bare (is_value column arg) = is_value column arg
bare (in_values column args) = in_values column (map (λ (a : Arg). null) args)
bare (exists_in subquery args) = exists_in subquery (map (λ (a : Arg). null) args)
bare and_then = and_then
bare or_else = or_else

-- Conditions with the same texts and the same operators between them.
data Same : List ConditionNode → List ConditionNode → Type 0 where
  nil : Same [] []
  cons :
      {n m : ConditionNode} {ns ms : List ConditionNode}
      → build_query n ≡ build_query m
      → n.next_logical_operator ≡ m.next_logical_operator
      → Same ns ms
      → Same (n ∷ ns) (m ∷ ms)

Same-connective :
    {ns ms : List ConditionNode} (op : LogicalOperator) (out : List Str)
    → Same ns ms
    → connective op ns out ≡ connective op ms out
unfolding connective
Same-connective op out nil = refl
Same-connective op out (cons e f same) = refl

parts-Same : {ns ms : List ConditionNode} → Same ns ms → parts ns ≡ parts ms
unfolding parts
parts-Same nil = refl
parts-Same (cons {n} {m} {ns} {ms} e f same) =
    ap
      (λ (r : Result BuildError Str).
        r >>= λ s. parts ns >>= λ rest. ok (s ∷ connective n.next_logical_operator ns rest))
      e
    ∙ ap (λ (k : List Str → List Str). build_query m >>= λ s. parts ns >>= λ rest. ok (s ∷ k rest))
        (fun_ext λ rest.
          Same-connective n.next_logical_operator rest same ∙ ap (λ op. connective op ms rest) f)
    ∙ ap
        (λ (r : Result BuildError (List Str)).
          build_query m >>= λ s. r >>= λ rest. ok (s ∷ connective m.next_logical_operator ms rest))
        (parts-Same same)

Same-snoc :
    {ns ms : List ConditionNode} (n m : ConditionNode)
    → build_query n ≡ build_query m
    → n.next_logical_operator ≡ m.next_logical_operator
    → Same ns ms
    → Same (ns ++ (n ∷ [])) (ms ++ (m ∷ []))
Same-snoc n m e f nil = cons e f nil
Same-snoc n m e f (cons e' f' same) = cons e' f' (Same-snoc n m e f same)

Same-set_last :
    {ns ms : List ConditionNode} (op : LogicalOperator)
    → Same ns ms
    → Same (set_last op ns) (set_last op ms)
unfolding set_last build_query
Same-set_last op nil = nil
Same-set_last op (cons e f nil) = cons e refl nil
Same-set_last op (cons e f (cons e' f' same)) = cons e f (Same-set_last op (cons e' f' same))

in_same :
    (column : Str) (args : List Arg)
    → build_query (new_condition_node column ComparisonOperator.in_list args)
      ≡ build_query
          (new_condition_node column ComparisonOperator.in_list (map (λ (a : Arg). null) args))
unfolding build_query new_condition_node
in_same column args =
    ap (λ n. ok (column ++ (text " IN " ++ build_placeholder n 1)))
      (sym (length-map (λ (a : Arg). null) args))

-- The text alone.
abbrev pub text_of : Result BuildError (Str × List Arg) → Result BuildError Str
text_of (err e) = err e
text_of (ok (q, args)) = ok q

module _ {B : Type 0} ⦃b : Builder B⦄ where
  call-Same :
      (k : Call) (c d : ConditionClause B)
      → Same c.nodes d.nodes
      → Same (call k c).nodes (call (bare k) d).nodes
  unfolding call Clause.equal_to Clause.is_value Clause.in_values Clause.exists_in Clause.and_then
      Clause.or_else add_new_node build_query new_condition_node
  call-Same (equal_to column arg) c d h = Same-snoc _ _ refl refl h
  call-Same (is_value column arg) c d h = Same-snoc _ _ refl refl h
  call-Same (in_values column args) c d h = Same-snoc _ _ (in_same column args) refl h
  call-Same (exists_in subquery args) c d h = Same-snoc _ _ refl refl h
  call-Same and_then c d h = Same-set_last _ h
  call-Same or_else c d h = Same-set_last _ h

  calls-Same :
      (ks : List Call) (c d : ConditionClause B)
      → Same c.nodes d.nodes
      → Same (calls ks c).nodes (calls (map bare ks) d).nodes
  unfolding calls
  calls-Same [] c d h = h
  calls-Same (k ∷ ks) c d h = calls-Same ks (call k c) (call (bare k) d) (call-Same k c d h)

  module _ (st : Statement B) where
    -- The text of a clause with a text in its statement.
    abbrev with_main : Str → Result BuildError Str → Result BuildError Str
    with_main main r = r >>= λ q. ok (query_builder_build main (some (text "WHERE " ++ q)))

    text_of-built :
        (s : B) (r : Result BuildError Str)
        → text_of (r >>= λ q. b.build (some (text "WHERE " ++ q)) s) ≡ with_main (st.main s) r
    text_of-built s (err e) = refl
    text_of-built s (ok q) = ap text_of (st.build-main (text "WHERE " ++ q) s)

    text_of-build_clause :
        (c : ConditionClause B)
        → text_of (build_clause c) ≡ with_main (st.main c.builder) (build_condition_string c.nodes)
    unfolding build_clause
    text_of-build_clause c = text_of-built c.builder (build_condition_string c.nodes)

    text_of-calls :
        (ks : List Call) (s t : B)
        → st.main s ≡ st.main t
        → text_of (build_clause (calls ks (new_condition_clause s)))
          ≡ text_of (build_clause (calls (map bare ks) (new_condition_clause t)))
    unfolding new_condition_clause build_condition_string
    text_of-calls ks s t e =
        let c = calls ks (new_condition_clause s) in
        let d = calls (map bare ks) (new_condition_clause t) in
        let same =
          parts-Same (calls-Same ks (new_condition_clause s) (new_condition_clause t) nil) in
        text_of-build_clause c
        ∙ ap (λ main. with_main main (build_condition_string c.nodes))
            ((given-calls st ks (new_condition_clause s)).1
              ∙ e
              ∙ sym (given-calls st (map bare ks) (new_condition_clause t)).1)
        ∙ ap
            (λ (r : Result BuildError (List Str)).
              with_main (st.main d.builder) (r >>= λ out. ok (join (text " ") out)))
            same
        ∙ sym (text_of-build_clause d)

-- Two chains of the same calls, on the same columns and with as many values in each `In` and `Exists`,
-- but with other values, save those of `Is`; and two lists of values for the columns of an UPDATE. The
-- texts that are built are the same, of a SELECT and of an UPDATE: no such value comes into a text.
pub build_clause-bare :
    (table : Str) (columns : List Str) (args args' : List Arg) (ks ks' : List Call)
    → map bare ks ≡ map bare ks'
    → (text_of (build_clause (calls ks (select_where (select table columns))))
        ≡ text_of (build_clause (calls ks' (select_where (select table columns)))))
      × (text_of (build_clause (calls ks (update_where (update table columns args))))
          ≡ text_of (build_clause (calls ks' (update_where (update table columns args')))))
unfolding select_where update_where update write_update update_query
build_clause-bare table columns args args' ks ks' h =
    let s = select table columns in
    let u = update table columns args in
    let u' = update table columns args' in
    (
      text_of-calls select_statement ks s s refl
          ∙ ap (λ l. text_of (build_clause (calls l (new_condition_clause s)))) h
          ∙ sym (text_of-calls select_statement ks' s s refl),
      text_of-calls update_statement ks u u' refl
          ∙ ap (λ l. text_of (build_clause (calls l (new_condition_clause u')))) h
          ∙ sym (text_of-calls update_statement ks' u' u' refl),
    )
