-- ===== src/Gateway/Users/Tests.antt =====
-- A witness of a login, on a database that returns all of its rows.
use mathlib.Core.Option.{some-injective}
use local_drive.Base.{
  false, ℕ, ◌≡◌, ◌↔◌, refl, subst, Bool, true, some, List, [], ◌∷◌, Str, text, join, ok, All,
  length, length-replicate, replicate, arith,
}
use local_drive.Base.Spaces.{trim_space}
use local_drive.Sql.Placeholder.{Arg, str, build_placeholder}
use local_drive.Sql.Node.{build_query, new_condition_node}
use local_drive.Sql.Clause.{
  build_clause, build_condition_string, parts, connective, equal_to, add_new_node,
  new_condition_clause, query_builder_build,
}
use local_drive.Sql.Select.{select, select_where, build_select, select_query, write_select}
use local_drive.Sql.Insert.{insert_into, build_insert}
use local_drive.Hasher.Base64.{IsByte}
use local_drive.Hasher.Phc.{RawHash, default_argon2_params}
use local_drive.Hasher.Compare.{Random, hash, key}
use local_drive.Hasher.Tests.{toy, mixed, replicate-All}
use local_drive.Users.Credentials.{
  validate_username, validate_chars, last_char, has_double_period, all_name_chars,
}
use local_drive.Users.Rules.{IsUsername}
use local_drive.Database.{Database, exec_query}
use local_drive.Gateway.Users.{
  UserAccount, get_user_query, to_args, add_user_query, normalised, new_account, returned, inserted,
  validated, hashed, add_user, validate_user,
}
use local_drive.Gateway.Users.Login.{add_user-validate_user}

abbrev rows : Database
rows = record {
  Store = List (List Arg);
  query = λ s query args. ok s;
  begin_ok = λ s. true;
  execute = λ s query args. ok (1, args ∷ s);
  commit_ok = λ s. true;
  commit_lost = λ s. false;
}

abbrev sevens : Random
sevens n = some (replicate n 7)

sevens-All : (n : ℕ) (salt : List ℕ) → sevens n ≡ some salt → All IsByte salt × (length salt ≡ n)
sevens-All n salt e =
    subst (λ (k : List ℕ). All IsByte k × (length k ≡ n)) (some-injective (replicate n 7) salt e)
      (replicate-All n 7 (omega arith), length-replicate n 7)

abbrev as_is : Str → Str
as_is s = s

abbrev ada_name : Str
ada_name = text "ada.lovelace"

abbrev made : RawHash
made = record {
  salt = replicate 16 7;
  hash = mixed (text "analytical") (replicate 16 7) 32;
  params = default_argon2_params;
}

abbrev ada : UserAccount
ada = new_account rows toy as_is sevens (text "id-1") 1000 ada_name made

add_user_test :
    add_user rows toy as_is sevens (text "id-1") 1000 [] ada_name (text "analytical")
    ≡ (ok ada, to_args ada ∷ [])
unfolding add_user hashed validated inserted returned normalised hash exec_query add_user_query
    build_insert insert_into validate_username validate_chars last_char has_double_period
    all_name_chars trim_space text to_args
add_user_test = refl

-- SELECT * FROM UserAccount WHERE Username = (?)
abbrev name_query : Str
name_query = text "SELECT * FROM UserAccount WHERE Username = (?)"

get_user_query_test : get_user_query ada_name ≡ ok (name_query, str ada_name ∷ [])
unfolding get_user_query build_clause build_condition_string parts connective equal_to add_new_node
    new_condition_clause new_condition_node build_query build_placeholder query_builder_build select
    select_where build_select select_query write_select text join
get_user_query_test = refl

add_user-validate_user_example :
    IsUsername ada.name
    × ((salt : List ℕ) × (sevens default_argon2_params.salt_length ≡ some salt)
        × ((b : Bool) × (validate_user rows toy as_is sevens
                (to_args ada ∷ [])
                ada_name
                (text "guess")
              ≡ ok (b, some ada))
            × ((b ≡ true) ↔ (
                key toy (text "guess") salt default_argon2_params
                ≡ key toy (text "analytical") salt default_argon2_params))))
unfolding new_account normalised trim_space text
add_user-validate_user_example =
    add_user-validate_user rows toy as_is sevens (text "id-1") 1000 [] (to_args ada ∷ [])
      (to_args ada ∷ []) ada_name ada_name (text "analytical") (text "guess") ada name_query
      (str ada_name ∷ []) sevens-All add_user_test get_user_query_test refl refl
