-- ===== src/Handlers/Middleware.antt =====
-- The middleware of src/api/api.go. A handler reads the user of the context, where there is one.
use local_drive.Base.{ℕ, Bool, true, false, Option, none, some, Str, Result, ok, err}
use local_drive.Api.{
  UserSessionInfo, Reply, Response, panic, written, set_cookie_session, unauthorized_error,
  internal_server_error,
}
use local_drive.Database.{GatewayError}
use local_drive.Gateway.Sessions.{validate_session_and_get_user}
use local_drive.Upload.{Server}
use local_drive.Handlers.{Environment}

module _ (env : Environment) where
  open env use {db}

  abbrev pub Handler : Type 0
  Handler = Option UserSessionInfo → Response → Server db.Store → Response × Server db.Store

  -- A handler that writes one reply.
  abbrev pub replying : Reply × Server db.Store → Response → Response × Server db.Store
  replying (reply, s) r = (written reply r, s)

  -- CreateRequestMiddleware: no user is put into the context.
  unfoldable pub create_request_middleware :
      Handler → Response → Server db.Store → Response × Server db.Store
  create_request_middleware h r s = h none r s

  -- The cookie is refreshed before the handler runs. A valid session without its user is not given.
  unfoldable pub admitted :
      Handler
      → Str
      → Result GatewayError (Bool × Option UserSessionInfo)
      → Response
      → Server db.Store
      → Response × Server db.Store
  admitted h id (err e) r s = (written internal_server_error r, s)
  admitted h id (ok (false, _)) r s = (written unauthorized_error r, s)
  admitted h id (ok (true, none)) r s = (written panic r, s)
  admitted h id (ok (true, some user)) r s = h (some user) (set_cookie_session id r) s

  -- CreateAuthMiddleware, at a time.
  unfoldable pub create_auth_middleware :
      Handler → ℕ → Option Str → Response → Server db.Store → Response × Server db.Store
  unfolding admitted
  create_auth_middleware h now none r s = (written unauthorized_error r, s)
  create_auth_middleware h now (some id) r s =
      admitted h id (validate_session_and_get_user db now s.db id) r s
