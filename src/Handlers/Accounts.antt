-- ===== src/Handlers/Accounts.antt =====
-- The handlers of src/api/user_handler.go and src/api/session_handler.go. They write to the response that
-- the middleware hands on. A handler is given the time and the ID that its calls read, and which of its
-- writes fail.
use local_drive.Base.{
  ℕ, Bool, true, false, Option, none, some, [], Str, text, Result, ok, err, if◌then◌else◌,
}
use local_drive.Base.Spaces.{is_empty}
use local_drive.Api.{
  UserSessionInfo, Output, Reply, Response, success, failure, panic, nothing, flag, account,
  written, set_cookie_session, expire_cookie_session, unauthorized_error, internal_server_error,
  bad_data_error, unauthorized, user_already_exists, bad_username,
}
use local_drive.Hasher.Compare.{Random}
use local_drive.Users.Credentials.{
  UsernameError, empty, len_out_of_range, invalid_first_char, invalid_end_char, is_invalid,
}
use local_drive.Database.{GatewayError, username, is_duplicate_sql_error}
use local_drive.Gateway.Users.{UserAccount, normalised, add_user, validate_user}
use local_drive.Gateway.Users.Accounts.{UserAccountNoPassword, get_user_by_session_id}
use local_drive.Gateway.Sessions.{Session, validate_session_and_get_user, upsert_session}
use local_drive.Gateway.Sessions.Rows.{delete_session_by_id}
use local_drive.Upload.{Server}
use local_drive.Handlers.{Environment, responded}

-- RequestUserLoginInfo and RequestUserRegisterInfo of src/api/request_types.go
pub record RequestUserLoginInfo : Type 0 where
  pub name : Str
  pub password : Str

pub record RequestUserRegisterInfo : Type 0 where
  pub name : Str
  pub password : Str
  pub confirm_password : Str

-- What the clock, the generators of IDs and salts and the connection answer in one call.
pub record AccountWorld : Type 0 where
  pub now : ℕ
  pub account_id : Str
  pub session_id : Str
  pub random : Random
  pub session_response_fails : Bool
  pub response_fails : Bool

-- GetSessionFromCookie
unfoldable pub get_session_from_cookie : Option Str → Str
get_session_from_cookie none = []
get_session_from_cookie (some v) = v

-- A response whose failure to be written is not looked at.
unfoldable pub written_or_lost : (response_fails : Bool) → Output → Response → Response
written_or_lost true output r = r
written_or_lost false output r = written (success output) r

-- Error of the username errors of src/db_gateway/gw_errors.go
unfoldable pub username_message : UsernameError → Str
username_message empty = text "username cannot be empty"
username_message len_out_of_range = text "username must be between 6 to 32 characters long"
username_message invalid_first_char = text "username must start with a letter"
username_message invalid_end_char = text "username must end with an alphanumeric character"
username_message is_invalid =
    text "username may only consist of alphanumeric characters and single periods"

unfoldable pub register_error : GatewayError → Reply
unfolding username_message
register_error (username e) = failure 400 (username_message e) bad_username
register_error e =
    if is_duplicate_sql_error e
    then failure 400 (text "Username already exists") user_already_exists
    else internal_server_error

module _ (env : Environment) where
  open env use {db, to_lower, argon}

  unfoldable pub user_reply :
      Bool → Result GatewayError (Option UserAccountNoPassword) → Response → Response
  unfolding responded written_or_lost
  user_reply response_fails (err e) r = written internal_server_error r
  user_reply response_fails (ok none) r = written_or_lost response_fails nothing r
  user_reply response_fails (ok (some u)) r = written (responded response_fails (account u)) r

  -- UserHandler.GetUserBySessionID
  unfoldable pub get_user_of_session : Bool → Option Str → Response → Server db.Store → Response
  unfolding user_reply
  get_user_of_session response_fails cookie r s =
      let id = get_session_from_cookie cookie in
      if is_empty id
      then written unauthorized_error r
      else user_reply response_fails (get_user_by_session_id db s.db id) r

  -- An error is only logged.
  unfoldable pub session_valid : Result GatewayError (Bool × Option UserSessionInfo) → Bool
  session_valid (err e) = false
  session_valid (ok (valid, _)) = valid

  -- After UpsertSession. Its error is answered, but the handler goes on and reads the nil session.
  unfoldable pub logged_in :
      Bool
      → Response
      → Server db.Store
      → Result GatewayError Session × db.Store
      → Response × Server db.Store
  unfolding responded
  logged_in response_fails r s (err e, db') =
      (written panic (written internal_server_error r), record s { db = db' })
  logged_in response_fails r s (ok ses, db') = (
    written (responded response_fails (flag true)) (set_cookie_session ses.session_id r),
    record s { db = db' },
  )

  unfoldable pub credentials_checked :
      AccountWorld
      → Response
      → Server db.Store
      → Result GatewayError (Bool × Option UserAccount)
      → Response × Server db.Store
  unfolding logged_in
  credentials_checked w r s (err e) = (written internal_server_error r, s)
  credentials_checked w r s (ok (false, _)) = (written bad_data_error r, s)
  credentials_checked w r s (ok (true, none)) = (written panic r, s)
  credentials_checked w r s (ok (true, some ua)) =
      logged_in w.response_fails r s (upsert_session db w.session_id w.now s.db ua.account_id)

  -- The decoded body, where there is one.
  unfoldable pub login :
      AccountWorld
      → Option RequestUserLoginInfo
      → Response
      → Server db.Store
      → Response × Server db.Store
  unfolding credentials_checked
  login w none r s = (written bad_data_error r, s)
  login w (some user) r s = credentials_checked w r s (
      validate_user db argon to_lower w.random s.db
        (normalised db argon to_lower w.random user.name) user.password)

  unfoldable pub cookie_valid : ℕ → Option Str → db.Store → Bool
  unfolding session_valid
  cookie_valid now none s = false
  cookie_valid now (some id) s = session_valid (validate_session_and_get_user db now s id)

  -- A response to a valid session that cannot be written is followed by the login.
  unfoldable pub post_login :
      AccountWorld
      → Option Str
      → Option RequestUserLoginInfo
      → Response
      → Server db.Store
      → Response × Server db.Store
  unfolding cookie_valid
  post_login w cookie body r s =
      if cookie_valid w.now cookie s.db
      then (if w.session_response_fails
          then login w body (written internal_server_error r) s
          else (written (success (flag true)) r, s))
      else login w body r s

  unfoldable pub logged_out :
      Bool
      → Response
      → Server db.Store
      → Result GatewayError (Unit {0}) × db.Store
      → Response × Server db.Store
  unfolding responded
  logged_out response_fails r s (err e, db') =
      (written internal_server_error r, record s { db = db' })
  logged_out response_fails r s (ok _, db') = (
    written (responded response_fails (flag true)) (expire_cookie_session r),
    record s { db = db' },
  )

  unfoldable pub post_logout :
      Bool → Option Str → Response → Server db.Store → Response × Server db.Store
  unfolding logged_out
  post_logout response_fails cookie r s =
      let id = get_session_from_cookie cookie in
      if is_empty id
      then (written (failure 400 (text "Unauthorized access") unauthorized) r, s)
      else logged_out response_fails r s (delete_session_by_id db s.db id)

  unfoldable pub session_given :
      Bool
      → Response
      → Server db.Store
      → Result GatewayError Session × db.Store
      → Response × Server db.Store
  unfolding responded
  session_given response_fails r s (err e, db') =
      (written internal_server_error r, record s { db = db' })
  session_given response_fails r s (ok ses, db') = (
    written (responded response_fails (flag true)) (set_cookie_session ses.session_id r),
    record s { db = db' },
  )

  unfoldable pub user_added :
      AccountWorld
      → Response
      → Server db.Store
      → Result GatewayError UserAccount × db.Store
      → Response × Server db.Store
  unfolding session_given register_error
  user_added w r s (err e, db') = (written (register_error e) r, record s { db = db' })
  user_added w r s (ok acc, db') =
      session_given w.response_fails r (record s { db = db' })
        (upsert_session db w.session_id w.now db' acc.account_id)

  unfoldable pub post_register_user :
      AccountWorld
      → Option RequestUserRegisterInfo
      → Response
      → Server db.Store
      → Response × Server db.Store
  unfolding user_added
  post_register_user w none r s = (written bad_data_error r, s)
  post_register_user w (some user) r s = user_added w r s (
      add_user db argon to_lower w.random w.account_id w.now s.db
        (normalised db argon to_lower w.random user.name) user.password)

  unfoldable pub session_reply :
      Bool → Result GatewayError (Bool × Option UserSessionInfo) → Response → Response
  unfolding written_or_lost
  session_reply response_fails (err e) r = written internal_server_error r
  session_reply response_fails (ok (status, _)) r = written_or_lost response_fails (flag status) r

  -- SessionHandler.GetValidateSession
  unfoldable pub get_validate_session :
      ℕ → Bool → Option Str → Response → Server db.Store → Response
  unfolding session_reply
  get_validate_session now response_fails cookie r s =
      session_reply response_fails
        (validate_session_and_get_user db now s.db (get_session_from_cookie cookie)) r
