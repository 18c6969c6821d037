-- ===== src/Gateway/Sessions.antt =====
-- SessionGateway (src/db_gateway/session_gateway.go) and the sessions of src/session/session.go.
pub mod Expiry
pub mod Renewal
pub mod Rows
mod Tests
use local_drive.Base.{
  ℕ, ◌+◌, ◌*◌, Bool, true, false, not, Option, none, some, List, [], ◌∷◌, ◌++◌, Str, text, Result,
  ok, err, length, ltb, str_eq, if◌then◌else◌,
}
use local_drive.Base.Spaces.{trim_space, is_empty}
use local_drive.Sql.Placeholder.{Arg, str, time, build_placeholder}
use local_drive.Api.{UserSessionInfo}
use local_drive.Database.Rows.{select_rows}
use local_drive.Database.{Database, SqlError, GatewayError, sql, exec_query}
use local_drive.Gateway.Files.{day}

pub record Session : Type 0 where
  pub session_id : Str
  pub account_id : Str
  pub created_on : ℕ
  pub expire_on : ℕ

-- ToArgs
unfoldable pub session_args : Session → List Arg
session_args s = str s.session_id ∷ str s.account_id ∷ time s.created_on ∷ time s.expire_on ∷ []

abbrev pub expire_time_days : ℕ
expire_time_days = 14

unfoldable pub upsert_query : Session → Str × List Arg
upsert_query ses =
    let args = session_args ses in
    (
      text "INSERT INTO Session"
          ++ (text " VALUES"
              ++ (build_placeholder (length args) 1
                  ++ text " ON DUPLICATE KEY UPDATE SessionID=?,CreatedOn=?,ExpireOn=?")),
      args ++ (str ses.session_id ∷ time ses.created_on ∷ time ses.expire_on ∷ []),
    )

abbrev pub session_query : Str
session_query =
    text
      "\n\t\tSELECT s.SessionID, s.ExpireOn, u.Username, u.AccountID\n\t\tFROM Session s\n\t\tJOIN UserAccount u\n\t\t\tON u.AccountID = s.AccountID\n\t\tWHERE s.SessionID = ?\n\t\tLIMIT 1"

-- SelectRows into session infos, field by field.
unfoldable pub scan_session : List Arg → Option UserSessionInfo
scan_session (str session_id ∷ time expire_on ∷ str user ∷ str account_id ∷ []) = some (record {
  session_id = session_id;
  expire_on = expire_on;
  username = user;
  account_id = account_id;
})
scan_session _ = none

abbrev pub scan_sessions : List (List Arg) → Option (List UserSessionInfo)
scan_sessions rows = select_rows scan_session rows

unfoldable pub validate_id : Str → Bool
validate_id id = not (is_empty (trim_space id))

-- The tests on the rows that are found, at a time.
unfoldable pub tested :
    ℕ → Str → Option (List UserSessionInfo) → Result GatewayError (Bool × Option UserSessionInfo)
tested now id none = err sql
tested now id (some []) = ok (false, none)
tested now id (some (info ∷ _)) =
    if not (str_eq info.session_id id)
    then ok (false, none)
    else if ltb info.expire_on now
    then ok (false, none)
    else ok (true, some info)

unfoldable pub answered :
    ℕ
    → Str
    → Result SqlError (List (List Arg))
    → Result GatewayError (Bool × Option UserSessionInfo)
unfolding tested
answered now id (err e) = err sql
answered now id (ok rows) = tested now id (scan_sessions rows)

module _ (db : Database) where
  open db use {Store, query}

  unfoldable pub validate_session_and_get_user :
      ℕ → Store → Str → Result GatewayError (Bool × Option UserSessionInfo)
  unfolding answered validate_id
  validate_session_and_get_user now s id =
      if not (validate_id id)
      then ok (false, none)
      else answered now id (query s session_query (str id ∷ []))

  unfoldable pub upserted :
      Session → Result GatewayError ℕ × Store → Result GatewayError Session × Store
  upserted ses (err e, s) = (err e, s)
  upserted ses (ok n, s) = (ok ses, s)

  -- With the generated ID and the current time.
  unfoldable pub upsert_session : Str → ℕ → Store → Str → Result GatewayError Session × Store
  unfolding upserted upsert_query
  upsert_session id now s account_id =
      let ses : Session = record {
        session_id = id;
        account_id = account_id;
        created_on = now;
        expire_on = now + expire_time_days * day;
      } in
      let (q, args) = upsert_query ses in upserted ses (exec_query db s q args)
