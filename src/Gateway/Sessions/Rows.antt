-- ===== src/Gateway/Sessions/Rows.antt =====
-- The other methods of SessionGateway (src/db_gateway/session_gateway.go): sessions by their account and
-- by their ID, and their deletion.
use local_drive.Base.{
  ℕ, not, Option, none, some, List, [], ◌∷◌, Str, text, Result, ok, err, if◌then◌else◌,
}
use local_drive.Sql.Placeholder.{Arg, str, time}
use local_drive.Sql.Node.{BuildError}
use local_drive.Sql.Clause.{equal_to, build_clause}
use local_drive.Sql.Select.{select, select_where, select_builder}
use local_drive.Database.Rows.{select_rows}
use local_drive.Database.{Database, SqlError, GatewayError, query_failed, parsing, exec_query}
use local_drive.Gateway.Sessions.{Session, validate_id}

unfoldable pub scan_own_session : List Arg → Option Session
scan_own_session (str session_id ∷ str account_id ∷ time created_on ∷ time expire_on ∷ []) =
    some (record {
      session_id = session_id;
      account_id = account_id;
      created_on = created_on;
      expire_on = expire_on;
    })
scan_own_session _ = none

-- `SELECT * FROM Session WHERE` a column is a value
unfoldable pub session_by : Str → Str → Result BuildError (Str × List Arg)
session_by column value =
    build_clause (equal_to column (str value) (select_where (select (text "Session") [])))

abbrev pub delete_session_query : Str
delete_session_query = text "\n\t\tDELETE FROM Session \n\t\tWHERE SessionID = ?\n\t\t"

first_session : Option (List Session) → Result GatewayError (Option Session)
first_session none = err parsing
first_session (some []) = ok none
first_session (some (ses ∷ _)) = ok (some ses)

unfoldable pub session_of : Result SqlError (List (List Arg)) → Result GatewayError (Option Session)
unfolding first_session
session_of (err e) = err query_failed
session_of (ok rows) = first_session (select_rows scan_own_session rows)

module _ (db : Database) where
  open db use {Store, query}

  session_where : Store → Str → Str → Result GatewayError (Option Session)
  unfolding session_of
  session_where s column value = elim (session_by column value) [
    | err e ↦ err query_failed
    | ok (q, args) ↦ session_of (query s q args)
  ]

  unfoldable pub get_session_by_account_id : Store → Str → Result GatewayError (Option Session)
  unfolding session_where
  get_session_by_account_id s account = session_where s (text "AccountID") account

  unfoldable pub get_session_by_session_id : Store → Str → Result GatewayError (Option Session)
  unfolding session_where
  get_session_by_session_id s id =
      if not (validate_id id) then ok none else session_where s (text "SessionID") id

  unfoldable pub session_deleted :
      Result GatewayError ℕ × Store → Result GatewayError (Unit {0}) × Store
  session_deleted (err e, s) = (err query_failed, s)
  session_deleted (ok n, s) = (ok tt, s)

  unfoldable pub delete_session_by_id : Store → Str → Result GatewayError (Unit {0}) × Store
  unfolding session_deleted
  delete_session_by_id s id = session_deleted (exec_query db s delete_session_query (str id ∷ []))
