-- ===== src/Handlers/Access.antt =====
-- Who is let through to a handler.
use local_drive.Base.{
  ℕ, ◌≡◌, ◌≢◌, refl, sym, ap, subst, ◌∙◌, ◌⊎◌, inl, inr, Bool, true, false, Option, none, some,
  List, [], ◌∷◌, Str, Result, ok, err, arith,
}
use local_drive.Sql.Placeholder.{Arg, str}
use local_drive.Api.{
  UserSessionInfo, Response, no_response, written, set_cookie_session, unauthorized_error,
  internal_server_error,
}
use local_drive.Database.{SqlError, GatewayError}
use local_drive.Gateway.Sessions.{
  session_query, scan_sessions, tested, answered, validate_session_and_get_user,
}
use local_drive.Upload.{Server}
use local_drive.Handlers.{Environment}
use local_drive.Handlers.Middleware.{Handler, admitted, create_auth_middleware}
use local_drive.Handlers.Routes.{Request, is_authenticated, handler, serve}

-- A valid session has its user.
tested-user :
    (now : ℕ) (id : Str) (o : Option (List UserSessionInfo)) → tested now id o ≢ ok (true, none)
unfolding tested
tested-user now id none h = cc
tested-user now id (some []) h = cc
tested-user now id (some (info ∷ infos)) h = ground arith

answered-user :
    (now : ℕ) (id : Str) (rows : Result SqlError (List (List Arg)))
    → answered now id rows ≢ ok (true, none)
unfolding answered
answered-user now id (err e) h = cc
answered-user now id (ok rows) h = tested-user now id (scan_sessions rows) h

module _ (env : Environment) where
  open env use {db}

  validate_session-user :
      (now : ℕ) (s : db.Store) (id : Str)
      → validate_session_and_get_user db now s id ≢ ok (true, none)
  unfolding validate_session_and_get_user
  validate_session-user now s id h =
      ground (arith, answered-user now id (db.query s session_query (str id ∷ [])))

  -- The cookie of a request is of a session that is valid at the time, and of this user.
  abbrev pub HasSession : ℕ → Option Str → Server db.Store → UserSessionInfo → Type 0
  HasSession now none s user = ⊥
  HasSession now (some id) s user =
      validate_session_and_get_user db now s.db id ≡ ok (true, some user)

  -- Only an error was written, and nothing changed.
  abbrev pub IsRefused : Server db.Store → Response × Server db.Store → Type 0
  IsRefused s out =
      (out ≡ (written unauthorized_error no_response, s))
      ⊎ (out ≡ (written internal_server_error no_response, s))

  admitted-IsRefused :
      (h : Handler env) (id : Str) (v : Result GatewayError (Bool × Option UserSessionInfo))
      (s : Server db.Store)
      → v ≢ ok (true, none)
      → ((user : UserSessionInfo) → v ≢ ok (true, some user))
      → IsRefused s (admitted env h id v no_response s)
  unfolding admitted
  admitted-IsRefused h id (err e) s no_user stranger = inr refl
  admitted-IsRefused h id (ok (false, user)) s no_user stranger = inl refl
  admitted-IsRefused h id (ok (true, none)) s no_user stranger = absurd (no_user refl)
  admitted-IsRefused h id (ok (true, some user)) s no_user stranger = absurd (stranger user refl)

  pub serve-authenticated :
      (now : ℕ) (q : Request) (cookie : Option Str) (s : Server db.Store)
      → is_authenticated q ≡ true
      → serve env now q cookie s
        ≡ create_auth_middleware env (handler env q cookie) now cookie no_response s
  unfolding serve
  serve-authenticated now q cookie s e = rw e refl

  -- A request to a route that needs a session, with the cookie of a valid session: the handler runs for
  -- the session's user, and the response sets the cookie again.
  pub serve-handler :
      (now : ℕ) (q : Request) (id : Str) (s : Server db.Store) (user : UserSessionInfo)
      → is_authenticated q ≡ true
      → HasSession now (some id) s user
      → serve env now q (some id) s
        ≡ handler env q (some id) (some user) (set_cookie_session id no_response) s
  unfolding create_auth_middleware admitted
  serve-handler now q id s user e h =
      serve-authenticated now q (some id) s e
      ∙ ap (λ v. admitted env (handler env q (some id)) id v no_response s) h

  -- A request to a route that needs a session, without a cookie of a session that is valid: the
  -- response is the unauthorized error or the internal error alone, and nothing changes.
  pub serve-IsRefused :
      (now : ℕ) (q : Request) (cookie : Option Str) (s : Server db.Store)
      → is_authenticated q ≡ true
      → ((user : UserSessionInfo) → ¬ HasSession now cookie s user)
      → IsRefused s (serve env now q cookie s)
  unfolding create_auth_middleware
  serve-IsRefused now q none s e stranger = inl (serve-authenticated now q none s e)
  serve-IsRefused now q (some id) s e stranger =
      subst (IsRefused s) (sym (serve-authenticated now q (some id) s e)) (
        admitted-IsRefused (handler env q (some id)) id
          (validate_session_and_get_user db now s.db id) s (validate_session-user now s.db id)
          stranger)
