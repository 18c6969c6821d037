-- ===== src/Gateway/Users.antt =====
-- UserGateway (src/db_gateway/user_gateway.go) and the accounts of src/user/user.go: adding a user and
-- checking credentials. What strings.ToLower gives is a parameter.
pub mod Login
pub mod Accounts
mod Tests
use local_drive.Base.{
  ℕ, Bool, true, false, Option, none, some, List, [], ◌∷◌, Str, text, Result, ok, err, ◌>>=◌,
}
use local_drive.Base.Spaces.{trim_space}
use local_drive.Sql.Placeholder.{Arg, str, time, flag}
use local_drive.Sql.Node.{BuildError}
use local_drive.Sql.Clause.{equal_to, build_clause}
use local_drive.Sql.Select.{select, select_where, select_builder}
use local_drive.Sql.Insert.{insert_into, build_insert}
use local_drive.Hasher.Phc.{RawHash, HashError, encode, parse_phc, default_argon2_params}
use local_drive.Hasher.Compare.{Argon2, Random, hash, compare}
use local_drive.Users.Credentials.{UsernameError, validate_username}
use local_drive.Database.Rows.{select_rows}
use local_drive.Database.{
  Database, SqlError, GatewayError, sql, username, query_failed, hashing, parsing, exec_query,
}

pub record UserAccount : Type 0 where
  pub account_id : Str
  pub name : Str
  pub password_hash : Str
  pub created_on : ℕ
  pub active : Bool

abbrev pub user_table : Str
user_table = text "UserAccount"

abbrev pub column_username : Str
column_username = text "Username"

abbrev pub user_columns : List Str
user_columns =
    text "AccountID" ∷ column_username ∷ text "PasswordHash" ∷ text "CreatedOn" ∷ text "Active" ∷ []

-- ToArgs
unfoldable pub to_args : UserAccount → List Arg
to_args ua =
    str ua.account_id
    ∷ str ua.name
    ∷ str ua.password_hash
    ∷ time ua.created_on
    ∷ flag ua.active
    ∷ []

-- SelectRows into accounts, field by field.
unfoldable pub scan_user : List Arg → Option UserAccount
scan_user (str account_id ∷ str name ∷ str password_hash ∷ time created_on ∷ flag active ∷ []) =
    some (record {
      account_id = account_id;
      name = name;
      password_hash = password_hash;
      created_on = created_on;
      active = active;
    })
scan_user _ = none

abbrev pub scan_users : List (List Arg) → Option (List UserAccount)
scan_users rows = select_rows scan_user rows

first_user : Option (List UserAccount) → Result GatewayError (Option UserAccount)
first_user none = err parsing
first_user (some []) = ok none
first_user (some (u ∷ _)) = ok (some u)

unfoldable pub users_of :
    Result SqlError (List (List Arg)) → Result GatewayError (Option UserAccount)
unfolding first_user
users_of (err e) = err query_failed
users_of (ok rows) = first_user (scan_users rows)

unfoldable pub add_user_query : UserAccount → Result BuildError (Str × List Arg)
add_user_query acc = build_insert (insert_into user_table user_columns (to_args acc))

unfoldable pub get_user_query : Str → Result BuildError (Str × List Arg)
get_user_query name =
    build_clause (equal_to column_username (str name) (select_where (select user_table [])))

module _ (db : Database) (argon : Argon2) (to_lower : Str → Str) (random : Random) where
  open db use {Store, query}

  unfoldable pub normalised : Str → Str
  normalised name = trim_space (to_lower name)

  unfoldable pub new_account : Str → ℕ → Str → RawHash → UserAccount
  new_account id now name raw = record {
    account_id = id;
    name = name;
    password_hash = (encode raw).phc;
    created_on = now;
    active = true;
  }

  unfoldable pub returned :
      UserAccount → Result GatewayError ℕ × Store → Result GatewayError UserAccount × Store
  returned acc (err e, s) = (err e, s)
  returned acc (ok n, s) = (ok acc, s)

  unfoldable pub inserted :
      Store
      → UserAccount
      → Result BuildError (Str × List Arg)
      → Result GatewayError UserAccount × Store
  unfolding returned
  inserted s acc (err e) = (err sql, s)
  inserted s acc (ok (q, args)) = returned acc (exec_query db s q args)

  unfoldable pub validated :
      Store
      → UserAccount
      → Result UsernameError (Unit {0})
      → Result GatewayError UserAccount × Store
  unfolding inserted
  validated s acc (err e) = (err (username e), s)
  validated s acc (ok _) = inserted s acc (add_user_query acc)

  unfoldable pub hashed :
      Store → Str → ℕ → Str → Result HashError RawHash → Result GatewayError UserAccount × Store
  unfolding validated new_account
  hashed s id now name (err e) = (err hashing, s)
  hashed s id now name (ok raw) = validated s (new_account id now name raw) (validate_username name)

  -- With the generated ID and the current time. The password is hashed before the name is checked.
  unfoldable pub add_user : Str → ℕ → Store → Str → Str → Result GatewayError UserAccount × Store
  unfolding hashed normalised
  add_user id now s name password =
      hashed s id now (normalised name) (hash argon random password none default_argon2_params)

  selected : Store → Result BuildError (Str × List Arg) → Result GatewayError (Option UserAccount)
  selected s (err e) = err sql
  selected s (ok (q, args)) = users_of (query s q args)

  unfoldable pub get_user_by_username : Store → Str → Result GatewayError (Option UserAccount)
  unfolding selected
  get_user_by_username s name = selected s (get_user_query name)

  unfoldable pub compared :
      UserAccount → Result HashError Bool → Result GatewayError (Bool × Option UserAccount)
  compared u (err e) = err hashing
  compared u (ok b) = ok (b, some u)

  unfoldable pub checked :
      Str
      → Result GatewayError (Option UserAccount)
      → Result GatewayError (Bool × Option UserAccount)
  unfolding compared
  checked password (err e) = err e
  checked password (ok none) = ok (false, none)
  checked password (ok (some u)) =
      compared u (parse_phc u.password_hash >>= compare argon random password)

  unfoldable pub validate_user : Store → Str → Str → Result GatewayError (Bool × Option UserAccount)
  unfolding checked normalised
  validate_user s name password = checked password (get_user_by_username s (normalised name))
