-- ===== src/Sql/Calls.antt =====
-- Chains of calls on a condition clause, as the gateways write them:
-- `.Equal(c, v).And().In(d, vs...)`. Their texts, arguments and placeholders, call by call.
use local_drive.Base.{ℕ, ◌+◌, ◌≡◌, List, [], ◌∷◌, ◌++◌, Str, count, length}
use local_drive.Sql.Placeholder.{Arg, str, question}
use local_drive.Sql.Clause
use local_drive.Sql.Clause.{Builder, ConditionClause}

pub data Call : Type 0 where
  equal_to : Str → Arg → Call
  is_value : Str → Str → Call
  in_values : Str → List Arg → Call
  exists_in : Str → List Arg → Call
  and_then or_else : Call

module _ {ℓ} {B : Type ℓ} ⦃b : Builder B⦄ where
  unfoldable pub call : Call → ConditionClause B → ConditionClause B
  call (equal_to column arg) c = Clause.equal_to column arg c
  call (is_value column arg) c = Clause.is_value column arg c
  call (in_values column args) c = Clause.in_values column args c
  call (exists_in subquery args) c = Clause.exists_in subquery args c
  call and_then c = Clause.and_then c
  call or_else c = Clause.or_else c

  unfoldable pub calls : List Call → ConditionClause B → ConditionClause B
  calls [] c = c
  calls (k ∷ ks) c = calls ks (call k c)

-- The values that a call is given.
abbrev pub values : Call → List Arg
values (equal_to _ arg) = arg ∷ []
values (is_value _ arg) = str arg ∷ []
values (in_values _ args) = args
values (exists_in _ args) = args
values and_then = []
values or_else = []

abbrev pub all_values : List Call → List Arg
all_values [] = []
all_values (k ∷ ks) = values k ++ all_values ks

-- No column holds a '?', and a subquery holds one for each of its values.
abbrev pub IsPlain : Call → Type 0
IsPlain (equal_to column _) = count question column ≡ 0
IsPlain (is_value column arg) = (count question column ≡ 0) × (count question arg ≡ 0)
IsPlain (in_values column _) = count question column ≡ 0
IsPlain (exists_in subquery args) = count question subquery ≡ length args
IsPlain and_then = Unit {0}
IsPlain or_else = Unit {0}

abbrev pub is_is : Call → ℕ
is_is (is_value _ _) = 1
is_is _ = 0

-- How many of the calls are `Is`.
abbrev pub is_calls : List Call → ℕ
is_calls [] = 0
is_calls (k ∷ ks) = is_is k + is_calls ks
