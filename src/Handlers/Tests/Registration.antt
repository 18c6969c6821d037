-- ===== src/Handlers/Tests/Registration.antt =====
-- Witnesses of registering and logging in.
use mathlib.Core.Option.{some-injective}
use local_drive.Base.{
  ℕ, ◌+◌, ◌*◌, ◌≡◌, refl, subst, true, false, none, some, List, [], ◌∷◌, Str, text, join, ok, All,
  length, length-replicate, replicate, arith,
}
use local_drive.Base.Spaces.{trim_space, is_empty}
use local_drive.Sql.Placeholder.{Arg, str, build_placeholder}
use local_drive.Sql.Node.{build_query, new_condition_node}
use local_drive.Sql.Clause.{
  build_clause, build_condition_string, parts, connective, equal_to, add_new_node,
  new_condition_clause, query_builder_build,
}
use local_drive.Sql.Select.{select, select_where, build_select, select_query, write_select}
use local_drive.Sql.Insert.{insert_into, build_insert}
use local_drive.Api.{no_response, written, set_cookie_session, success, flag}
use local_drive.Hasher.Base64.{IsByte}
use local_drive.Hasher.Phc.{RawHash, default_argon2_params}
use local_drive.Hasher.Compare.{hash}
use local_drive.Hasher.Tests.{toy, mixed, replicate-All}
use local_drive.Users.Credentials.{
  validate_username, validate_chars, last_char, has_double_period, all_name_chars,
}
use local_drive.Database.{exec_query}
use local_drive.Gateway.Files.{day}
use local_drive.Gateway.Users.{
  UserAccount, get_user_query, to_args, add_user_query, normalised, new_account, returned, inserted,
  validated, hashed, add_user,
}
use local_drive.Gateway.Sessions.{Session, expire_time_days, upserted, upsert_query, upsert_session}
use local_drive.Handlers.Accounts.{RequestUserRegisterInfo, cookie_valid}
use local_drive.Handlers.Routes.{
  user_login, user_register, user_get, is_authenticated, handler, serve,
}
use local_drive.Handlers.Sessions.{info_of, user_login-serve}
use local_drive.Handlers.Registration.{same_password, user_register-user_login}
use local_drive.Handlers.Tests.{
  replacing, environment, server, session_id, session_rows, sevens, world,
}

pub sevens-All :
    (n : ℕ) (salt : List ℕ) → sevens n ≡ some salt → All IsByte salt × (length salt ≡ n)
sevens-All n salt e =
    subst (λ (k : List ℕ). All IsByte k × (length k ≡ n)) (some-injective (replicate n 7) salt e)
      (replicate-All n 7 (omega arith), length-replicate n 7)

abbrev as_is : Str → Str
as_is s = s

abbrev pub body : RequestUserRegisterInfo
body = record {
  name = text " ada.lovelace";
  password = text "analytical";
  confirm_password = text "analytical";
}

abbrev pub made : RawHash
made = record {
  salt = replicate 16 7;
  hash = mixed (text "analytical") (replicate 16 7) 32;
  params = default_argon2_params;
}

abbrev pub ada : UserAccount
ada = new_account (replacing []) toy as_is sevens (text "acc") 100 (text "ada.lovelace") made

abbrev pub rows : List (List Arg)
rows = to_args ada ∷ []

abbrev session : Session
session = record {
  session_id = session_id;
  account_id = text "acc";
  created_on = 100;
  expire_on = 100 + expire_time_days * day;
}

added_test :
    (next : List (List Arg))
    → add_user
        (replacing next)
        toy
        as_is
        sevens
        (text "acc")
        100
        []
        (normalised (replacing next) toy as_is sevens body.name)
        body.password
      ≡ (ok ada, next)
unfolding add_user hashed validated inserted returned normalised hash exec_query add_user_query
    build_insert insert_into validate_username validate_chars last_char has_double_period
    all_name_chars trim_space text new_account to_args
added_test next = refl

opened_test :
    (next s : List (List Arg))
    → upsert_session (replacing next) session_id 100 s (text "acc") ≡ (ok session, next)
unfolding upsert_session upserted exec_query upsert_query
opened_test next s = refl

-- SELECT * FROM UserAccount WHERE Username = (?)
abbrev pub name_query : Str
name_query = text "SELECT * FROM UserAccount WHERE Username = (?)"

pub built_test : get_user_query ada.name ≡ ok (name_query, str (text "ada.lovelace") ∷ [])
unfolding get_user_query build_clause build_condition_string parts connective equal_to add_new_node
    new_condition_clause new_condition_node build_query build_placeholder query_builder_build select
    select_where build_select select_query write_select text join new_account
built_test = refl

user_register-user_login_example :
    (serve (environment rows) 90 (user_register world (some body)) none (server [])
      ≡ (written (success (flag true)) (set_cookie_session session_id no_response), server rows))
    × (serve
          (environment rows)
          95
          (user_login world (some (record { name = body.name; password = body.password })))
          none
          (server rows)
        ≡ (written (success (flag true)) (set_cookie_session session_id no_response), server rows))
unfolding cookie_valid new_account
user_register-user_login_example =
    user_register-user_login (environment rows) 90 95 world world none none body (server [])
      (server rows) rows rows rows ada session session name_query (str (text "ada.lovelace") ∷ [])
      sevens-All refl refl (added_test rows) (opened_test rows rows) built_test refl refl
      (opened_test rows rows)

abbrev after : List (List Arg)
after = session_rows (100 + expire_time_days * day)

filled_test : is_empty (trim_space session_id) ≡ false
unfolding trim_space text
filled_test = refl

user_login-serve_example :
    (serve
        (environment after)
        95
        (user_login world (some (record { name = body.name; password = body.password })))
        none
        (server rows)
      ≡ (written (success (flag true)) (set_cookie_session session_id no_response), server after))
    × (serve (environment after) 2000 (user_get false) (some session_id) (server after)
        ≡ handler
            (environment after)
            (user_get false)
            (some session_id)
            (some (
              info_of session_id (100 + expire_time_days * day) (text "ada.lovelace") (text "acc")))
            (set_cookie_session session_id no_response)
            (server after))
unfolding cookie_valid is_authenticated new_account
user_login-serve_example =
    user_login-serve (environment after) 95 2000 world none
      (record { name = body.name; password = body.password }) (server rows) after ada
      (text "ada.lovelace") session (user_get false) refl refl filled_test
      (same_password (environment after) world world
        (normalised (replacing after) toy as_is sevens body.name) body.password [] after rows ada
        name_query (str (text "ada.lovelace") ∷ []) sevens-All (added_test after) built_test refl)
      (opened_test after rows) refl refl (omega arith)
