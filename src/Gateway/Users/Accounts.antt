-- ===== src/Gateway/Users/Accounts.antt =====
-- The other methods of UserGateway (src/db_gateway/user_gateway.go): accounts by their ID and by a
-- session, and their soft deletion.
use local_drive.Base.{
  ℕ, Bool, false, Option, none, some, List, [], ◌∷◌, Str, text, concat, Result, ok, err,
}
use local_drive.Sql.Placeholder.{Arg, str, time, flag}
use local_drive.Sql.Node.{BuildError}
use local_drive.Sql.Clause.{equal_to, build_clause}
use local_drive.Sql.Select.{select, select_where, select_builder, build_select}
use local_drive.Sql.Update.{update, update_where, update_builder}
use local_drive.Database.Rows.{select_rows, select_row}
use local_drive.Database.{
  Database, SqlError, GatewayError, driver, query_failed, parsing, exec_query,
}
use local_drive.Gateway.Users.{UserAccount, scan_user, user_table, column_username}

-- UserAccountNoPassword of src/user/user.go
pub record UserAccountNoPassword : Type 0 where
  pub account_id : Str
  pub name : Str
  pub created_on : ℕ
  pub active : Bool

unfoldable pub scan_account : List Arg → Option UserAccountNoPassword
scan_account (str account_id ∷ str name ∷ time created_on ∷ flag active ∷ []) =
    some (record { account_id = account_id; name = name; created_on = created_on; active = active })
scan_account _ = none

abbrev column_account_id : Str
column_account_id = text "AccountID"

-- The zero value of a UserAccount; Go's zero time is given as 0.
abbrev pub no_account : UserAccount
no_account = record {
  account_id = [];
  name = [];
  password_hash = [];
  created_on = 0;
  active = false;
}

unfoldable pub get_user_by_id_query : Str → Result BuildError (Str × List Arg)
get_user_by_id_query account =
    build_clause (equal_to column_account_id (str account) (select_where (select user_table [])))

unfoldable pub session_owner_query : Str → Result BuildError (Str × List Arg)
session_owner_query session_id = build_clause (
    equal_to (text "SessionID") (str session_id)
      (select_where (select (text "Session") (column_account_id ∷ []))))

abbrev pub account_columns : List Str
account_columns = column_account_id ∷ column_username ∷ text "CreatedOn" ∷ text "Active" ∷ []

-- The text of the query with the text of the query for the session's account in it.
unfoldable pub get_user_by_session_id_text : Str → Str → Str
get_user_by_session_id_text query owner_query = concat (
    text "\n\t\t"
    ∷ query
    ∷ text " \n\t\tWHERE "
    ∷ column_account_id
    ∷ text " IN ("
    ∷ owner_query
    ∷ text ")\n\t\t"
    ∷ [])

nested : Result BuildError (Str × List Arg) → Str × List Arg → Result BuildError (Str × List Arg)
unfolding get_user_by_session_id_text
nested (err e) owner = err e
nested (ok (query, _)) (owner_query, args) =
    ok (get_user_by_session_id_text query owner_query, args)

unfoldable pub get_user_by_session_id_query : Str → Result BuildError (Str × List Arg)
unfolding nested
get_user_by_session_id_query session_id = elim (session_owner_query session_id) [
  | err e ↦ err e
  | ok owner ↦ nested (build_select none (select user_table account_columns)) owner
]

unfoldable pub delete_user_query : Str → Result BuildError (Str × List Arg)
delete_user_query account = build_clause (
    equal_to column_account_id (str account)
      (update_where (update user_table (text "Active" ∷ []) (flag false ∷ []))))

row_of : Result SqlError (List (List Arg)) → Result GatewayError UserAccount
row_of (err e) = err query_failed
row_of (ok rows) = elim (select_row scan_user no_account rows) [
  | none ↦ err parsing
  | some u ↦ ok u
]

first_account :
    Option (List UserAccountNoPassword) → Result GatewayError (Option UserAccountNoPassword)
first_account none = err parsing
first_account (some []) = ok none
first_account (some (u ∷ _)) = ok (some u)

unfoldable pub account_of :
    Result SqlError (List (List Arg)) → Result GatewayError (Option UserAccountNoPassword)
unfolding first_account
account_of (err e) = err (driver e)
account_of (ok rows) = first_account (select_rows scan_account rows)

module _ (db : Database) where
  open db use {Store, query}

  -- The zero account where no row has the ID.
  unfoldable pub get_user_by_id : Store → Str → Result GatewayError UserAccount
  unfolding row_of
  get_user_by_id s account = elim (get_user_by_id_query account) [
    | err e ↦ err query_failed
    | ok (q, args) ↦ row_of (query s q args)
  ]

  -- nil where no row has the session ID
  unfoldable pub get_user_by_session_id :
      Store → Str → Result GatewayError (Option UserAccountNoPassword)
  unfolding account_of
  get_user_by_session_id s session_id = elim (get_user_by_session_id_query session_id) [
    | err e ↦ err query_failed
    | ok (q, args) ↦ account_of (query s q args)
  ]

  unfoldable pub deleted : Result GatewayError ℕ × Store → Result GatewayError (Unit {0}) × Store
  deleted (err e, s) = (err e, s)
  deleted (ok n, s) = (ok tt, s)

  -- The error of Build is not looked at: without one the text is empty and there are no arguments.
  unfoldable pub delete_user_by_id : Store → Str → Result GatewayError (Unit {0}) × Store
  unfolding deleted
  delete_user_by_id s account = elim (delete_user_query account) [
    | err e ↦ deleted (exec_query db s [] [])
    | ok (q, args) ↦ deleted (exec_query db s q args)
  ]

  unfoldable pub restore_user_by_id : Store → Str → Result GatewayError (Unit {0}) × Store
  restore_user_by_id s account = (ok tt, s)
