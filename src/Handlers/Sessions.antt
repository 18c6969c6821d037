-- ===== src/Handlers/Sessions.antt =====
-- What logging in, registering and logging out mean for the requests that follow.
use local_drive.Base.{
  ℕ, ◌+◌, ◌*◌, ◌≤◌, ◌≡◌, refl, ap, ◌∙◌, true, false, Option, none, some, [], ◌∷◌, Str, ok, le→leb,
  if◌then◌else◌,
}
use local_drive.Base.Spaces.{trim_space, is_empty}
use local_drive.Sql.Placeholder.{str, time}
use local_drive.Api.{
  UserSessionInfo, Response, no_response, written, set_cookie_session, expire_cookie_session,
  unauthorized_error, success, flag,
}
use local_drive.Gateway.Files.{day}
use local_drive.Gateway.Users.{UserAccount, normalised, validate_user}
use local_drive.Gateway.Sessions.{
  Session, expire_time_days, session_query, tested, answered, validate_id,
  validate_session_and_get_user, upsert_session,
}
use local_drive.Gateway.Sessions.Expiry.{validate_session_iff}
use local_drive.Gateway.Sessions.Renewal.{upsert_session-ok, upsert_session-validate_session}
use local_drive.Gateway.Sessions.Rows.{delete_session_by_id}
use local_drive.Database.Rows.{select_rows}
use local_drive.Upload.{Server}
use local_drive.Handlers.{Environment, responded}
use local_drive.Handlers.Accounts.{
  AccountWorld, RequestUserLoginInfo, get_session_from_cookie, logged_in, credentials_checked,
  login, cookie_valid, post_login, logged_out, post_logout,
}
use local_drive.Handlers.Middleware.{admitted, create_auth_middleware, create_request_middleware}
use local_drive.Handlers.Routes.{Request, user_login, user_logout, is_authenticated, handler, serve}
use local_drive.Handlers.Access.{HasSession, serve-handler, serve-authenticated}

is_empty-trim_space : (id : Str) → is_empty (trim_space id) ≡ false → is_empty id ≡ false
unfolding trim_space
is_empty-trim_space [] h = cc
is_empty-trim_space (c ∷ id) h = refl

-- What the context holds for a session.
abbrev pub info_of : Str → ℕ → Str → Str → UserSessionInfo
info_of id expire_on user account = record {
  session_id = id;
  expire_on = expire_on;
  username = user;
  account_id = account;
}

module _ (env : Environment) where
  open env use {db, argon, to_lower}

  validate_session-gone :
      (now : ℕ) (s : db.Store) (id : Str)
      → db.query s session_query (str id ∷ []) ≡ ok []
      → is_empty (trim_space id) ≡ false
      → validate_session_and_get_user db now s id ≡ ok (false, none)
  unfolding validate_session_and_get_user validate_id answered tested select_rows
  validate_session-gone now s id e filled = rw (filled, e) refl

  logged_out_lem :
      (id : Str) (s : Server db.Store) (s' : db.Store) (user : Option UserSessionInfo)
      (r : Response)
      → is_empty id ≡ false
      → delete_session_by_id db s.db id ≡ (ok tt, s')
      → handler env (user_logout false) (some id) user r s
        ≡ (written (success (flag true)) (expire_cookie_session r), record s { db = s' })
  unfolding handler post_logout logged_out get_session_from_cookie responded
  logged_out_lem id s s' user r filled e = rw (filled, e) refl

  -- A request with a valid session logs out, its row is deleted, the database has no row for the
  -- session any more, and the response is written: the response expires the cookie that the middleware had refreshed, and a later
  -- request with the same cookie, to any route that needs a session, gets the unauthorized error and
  -- changes nothing.
  pub user_logout-refused :
      (now later : ℕ) (id : Str) (s : Server db.Store) (s' : db.Store) (user : UserSessionInfo)
      (q : Request)
      → HasSession env now (some id) s user
      → delete_session_by_id db s.db id ≡ (ok tt, s')
      → db.query s' session_query (str id ∷ []) ≡ ok []
      → is_authenticated q ≡ true
      → (serve env now (user_logout false) (some id) s ≡ (
        written (success (flag true)) (expire_cookie_session (set_cookie_session id no_response)),
        record s { db = s' },
      ))
        × (serve env later q (some id) (record s { db = s' })
            ≡ (written unauthorized_error no_response, record s { db = s' }))
  unfolding create_auth_middleware is_authenticated admitted
  user_logout-refused now later id s s' user q h deleted gone e =
      let filled = ((validate_session_iff db now s.db id user).0 h).0 in
      (
        serve-handler env now (user_logout false) id s user refl h
            ∙ logged_out_lem id s s' (some user) (set_cookie_session id no_response)
                (is_empty-trim_space id filled) deleted,
        serve-authenticated env later q (some id) (record s { db = s' }) e
            ∙ ap
                (λ v.
                  admitted env (handler env q (some id)) id v no_response (record s { db = s' }))
                (validate_session-gone later s' id gone filled),
      )

  -- A session that was written opens the routes that need one, up to 14 days later.
  session_opened :
      (id : Str) (now later : ℕ) (s : db.Store) (t : Server db.Store) (account user : Str)
      (ses : Session)
      → is_empty (trim_space id) ≡ false
      → upsert_session db id now s account ≡ (ok ses, t.db)
      → db.query t.db session_query (str id ∷ [])
        ≡ ok ((str ses.session_id ∷ time ses.expire_on ∷ str user ∷ str ses.account_id ∷ []) ∷ [])
      → later ≤ now + expire_time_days * day
      → HasSession env later (some id) t (info_of id (now + expire_time_days * day) user account)
  session_opened id now later s t account user ses filled made row early =
      upsert_session-validate_session db id now later s t.db account user ses filled made row
      ∙ ap
          (λ b.
            (if b
              then ok (true, some (info_of id (now + expire_time_days * day) user account))
              else ok (false, none)))
          (le→leb later _ early)

  logged_in_lem :
      (w : AccountWorld) (r : Response) (s : Server db.Store) (db' : db.Store) (acc : UserAccount)
      (ses : Session)
      → w.response_fails ≡ false
      → upsert_session db w.session_id w.now s.db acc.account_id ≡ (ok ses, db')
      → credentials_checked env w r s (ok (true, some acc))
        ≡ (written (success (flag true)) (set_cookie_session w.session_id r), record s { db = db' })
  unfolding credentials_checked logged_in responded
  logged_in_lem w r s db' acc ses f e =
      rw (e, f, (upsert_session-ok db w.session_id w.now s.db db' acc.account_id ses e).0) refl

  pub user_login_lem :
      (now : ℕ) (w : AccountWorld) (cookie : Option Str) (body : RequestUserLoginInfo)
      (s : Server db.Store) (db' : db.Store) (acc : UserAccount) (ses : Session)
      → cookie_valid env w.now cookie s.db ≡ false
      → w.response_fails ≡ false
      → validate_user db argon to_lower w.random s.db
          (normalised db argon to_lower w.random body.name)
          body.password
        ≡ ok (true, some acc)
      → upsert_session db w.session_id w.now s.db acc.account_id ≡ (ok ses, db')
      → serve env now (user_login w (some body)) cookie s ≡ (
        written (success (flag true)) (set_cookie_session w.session_id no_response),
        record s { db = db' },
      )
  unfolding serve is_authenticated create_request_middleware handler post_login login
  user_login_lem now w cookie body s db' acc ses stranger f valid opened = rw stranger (
      ap (credentials_checked env w no_response s) valid
      ∙ logged_in_lem w no_response s db' acc ses f opened)

  -- Without a valid session in the cookie, with a body whose name and password are an account's, where
  -- the session is written, under an ID that is not blank, and the response too: logging in answers with success and sets the cookie
  -- to the new session, and up to 14 days later, once the database answers for the session with its
  -- row, a request with that cookie to a route that needs a session is handled for the account.
  pub user_login-serve :
      (now later : ℕ) (w : AccountWorld) (cookie : Option Str) (body : RequestUserLoginInfo)
      (s : Server db.Store) (db' : db.Store) (acc : UserAccount) (user : Str) (ses : Session)
      (q : Request)
      → cookie_valid env w.now cookie s.db ≡ false
      → w.response_fails ≡ false
      → is_empty (trim_space w.session_id) ≡ false
      → validate_user db argon to_lower w.random s.db
          (normalised db argon to_lower w.random body.name)
          body.password
        ≡ ok (true, some acc)
      → upsert_session db w.session_id w.now s.db acc.account_id ≡ (ok ses, db')
      → db.query db' session_query (str w.session_id ∷ [])
        ≡ ok ((str ses.session_id ∷ time ses.expire_on ∷ str user ∷ str ses.account_id ∷ []) ∷ [])
      → is_authenticated q ≡ true
      → later ≤ w.now + expire_time_days * day
      → (serve env now (user_login w (some body)) cookie s ≡ (
        written (success (flag true)) (set_cookie_session w.session_id no_response),
        record s { db = db' },
      ))
        × (serve env later q (some w.session_id) (record s { db = db' })
            ≡ handler env q
                (some w.session_id)
                (some (info_of w.session_id (w.now + expire_time_days * day) user acc.account_id))
                (set_cookie_session w.session_id no_response)
                (record s { db = db' }))
  user_login-serve now later w cookie body s db' acc user ses q stranger f filled valid opened row e
        early =
      (
        user_login_lem now w cookie body s db' acc ses stranger f valid opened,
        serve-handler env later q w.session_id (record s { db = db' })
            (info_of w.session_id (w.now + expire_time_days * day) user acc.account_id) e
            (session_opened w.session_id w.now later s.db (record s { db = db' }) acc.account_id
              user ses filled opened row early),
      )
