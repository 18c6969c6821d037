-- ===== src/Sql/Arity/Conditions.antt =====
-- The placeholders of the conditions of a clause, one by one and in a row.
use local_drive.Base.{
  ℕ, ◌+◌, ◌≡◌, refl, subst, List, [], ◌∷◌, ◌++◌, Str, text, count, count_all, count-append, length,
  arith, ok,
}
use local_drive.Sql.Placeholder.{Arg, str, question, build_placeholder, question-build_placeholder}
use local_drive.Sql.Node.{
  ConditionNode, LogicalOperator, and, or, unset, ComparisonOperator, build_query,
  new_condition_node,
}
use local_drive.Sql.Clause.{connective, parts, set_last}

-- The condition has a text, with `k` placeholders.
abbrev pub Renders : ℕ → ConditionNode → Type 0
Renders k n = (t : Str) × (build_query n ≡ ok t) × (count question t ≡ k)

-- The placeholders of a list of conditions.
pub data Rendered : List ConditionNode → ℕ → Type 0 where
  nil : Rendered [] 0
  cons :
      {n : ConditionNode} {ns : List ConditionNode} {k m j : ℕ}
      → Renders k n
      → Rendered ns m
      → j ≡ k + m
      → Rendered (n ∷ ns) j

question-connective :
    (op : LogicalOperator) (ns : List ConditionNode) (out : List Str)
    → count_all question (connective op ns out) ≡ count_all question out
unfolding connective count text
question-connective op [] out = refl
question-connective unset (n ∷ ns) out = refl
question-connective and (n ∷ ns) out = omega arith
question-connective or (n ∷ ns) out = omega arith

-- A list of conditions has a text, and the operators between them add no placeholder.
pub parts-question :
    {ns : List ConditionNode} {m : ℕ}
    → Rendered ns m
    → (out : List Str) × (parts ns ≡ ok out) × (count_all question out ≡ m)
unfolding parts
parts-question nil = ([], refl, refl)
parts-question (cons {n} {ns} (t, e, c) rs h) =
    let (out, e', c') = parts-question rs in
    (
      t ∷ connective n.next_logical_operator ns out,
      rw (e, e') refl,
      omega (arith, c, c', h, question-connective n.next_logical_operator ns out),
    )

Rendered-append :
    {ns ms : List ConditionNode} {i j l : ℕ}
    → Rendered ns i
    → Rendered ms j
    → l ≡ i + j
    → Rendered (ns ++ ms) l
Rendered-append {ms} nil r e = subst (Rendered ms) (omega arith) r
Rendered-append (cons {k} {m} {j = i} q rs h) r e =
    cons q (Rendered-append rs r refl) (omega (arith, h, e))

-- And and Or change no text.
pub Rendered-set_last :
    (op : LogicalOperator) (ns : List ConditionNode) {m : ℕ}
    → Rendered ns m
    → Rendered (set_last op ns) m
unfolding set_last build_query
Rendered-set_last op [] nil = nil
Rendered-set_last op (n ∷ []) (cons q rs h) = cons q rs h
Rendered-set_last op (n ∷ n' ∷ ns) (cons q rs h) = cons q (Rendered-set_last op (n' ∷ ns) rs) h

question-values :
    (column op : Str) (n : ℕ)
    → count question column ≡ 0
    → count question op ≡ 0
    → count question (column ++ (op ++ build_placeholder n 1)) ≡ n
question-values column op n h h' = omega (
  arith,
  count-append question column (op ++ build_placeholder n 1),
  count-append question op (build_placeholder n 1),
  question-build_placeholder n 1,
)

-- One more condition, with its placeholders.
pub Rendered-snoc :
    (n : ConditionNode) (k : ℕ) {ns : List ConditionNode} {i : ℕ}
    → Renders k n
    → Rendered ns i
    → Rendered (ns ++ (n ∷ [])) (i + k)
Rendered-snoc n k q r = Rendered-append r (cons q nil (omega arith)) refl

pub Renders-equal :
    (column : Str) (arg : Arg)
    → count question column ≡ 0
    → Renders 1 (new_condition_node column ComparisonOperator.equal (arg ∷ []))
unfolding build_query new_condition_node text count
Renders-equal column arg h = (_, refl, question-values column (text " = ") 1 h refl)

pub Renders-is :
    (column arg : Str)
    → count question column ≡ 0
    → count question arg ≡ 0
    → Renders 0 (new_condition_node column ComparisonOperator.is (str arg ∷ []))
unfolding build_query new_condition_node text count
Renders-is column arg h h' = (
  _,
  refl,
  omega (
    arith,
    count-append question column (text " IS " ++ arg),
    count-append question (text " IS ") arg,
  ),
)

pub Renders-in :
    (column : Str) (args : List Arg)
    → count question column ≡ 0
    → Renders (length args) (new_condition_node column ComparisonOperator.in_list args)
unfolding build_query new_condition_node text count
Renders-in column args h = (_, refl, question-values column (text " IN ") (length args) h refl)

pub Renders-exists :
    (subquery : Str) (args : List Arg)
    → count question subquery ≡ length args
    → Renders (length args) (new_condition_node subquery ComparisonOperator.exists args)
unfolding build_query new_condition_node text count
Renders-exists subquery args h = (
  _,
  refl,
  omega (
    arith,
    count-append question (text "EXISTS (") (subquery ++ text ")"),
    count-append question subquery (text ")"),
  ),
)
