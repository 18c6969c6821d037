-- ===== src/Handlers/Tests/Sessions.antt =====
-- Witnesses of logging in and out.
use local_drive.Base.{◌≡◌, refl, true, false, some, [], text, str_eq, ok}
use local_drive.Base.Spaces.{trim_space}
use local_drive.Api.{
  no_response, written, set_cookie_session, expire_cookie_session, unauthorized_error, success,
}
use local_drive.Api
use local_drive.Database.{exec_query}
use local_drive.Database.Rows.{select_rows}
use local_drive.Gateway.Sessions.{
  scan_session, tested, answered, validate_id, validate_session_and_get_user,
}
use local_drive.Gateway.Sessions.Rows.{delete_session_by_id, session_deleted}
use local_drive.Handlers.Routes.{user_logout, user_get, is_authenticated, serve}
use local_drive.Handlers.Access.{HasSession}
use local_drive.Handlers.Sessions.{info_of, user_logout-refused}
use local_drive.Handlers.Tests.{environment, server, session_id, session_rows}

valid_test :
    HasSession
      (environment [])
      40
      (some session_id)
      (server (session_rows 50))
      (info_of session_id 50 (text "ada.lovelace") (text "acc"))
unfolding validate_session_and_get_user validate_id answered tested select_rows scan_session
    trim_space text str_eq
valid_test = refl

deleted_test : delete_session_by_id (environment []).db (session_rows 50) session_id ≡ (ok tt, [])
unfolding delete_session_by_id session_deleted exec_query
deleted_test = refl

user_logout-refused_example :
    (serve (environment []) 40 (user_logout false) (some session_id) (server (session_rows 50)) ≡ (
      written
          (success (Api.flag true))
          (expire_cookie_session (set_cookie_session session_id no_response)),
      server [],
    ))
    × (serve (environment []) 45 (user_get false) (some session_id) (server [])
        ≡ (written unauthorized_error no_response, server []))
unfolding is_authenticated
user_logout-refused_example =
    user_logout-refused (environment []) 40 45 session_id (server (session_rows 50)) []
      (info_of session_id 50 (text "ada.lovelace") (text "acc")) (user_get false) valid_test
      deleted_test refl refl
