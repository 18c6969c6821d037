-- ===== src/Handlers/Registration.antt =====
-- A registration, and a login with the same name and password.
use local_drive.Base.{
  ℕ, ◌≡◌, refl, sym, ap, ◌∙◌, true, false, Option, some, List, [], ◌∷◌, Str, ok, All, length,
}
use local_drive.Sql.Placeholder.{Arg}
use local_drive.Hasher.Base64.{IsByte}
use local_drive.Api.{Response, no_response, written, set_cookie_session, success, flag}
use local_drive.Gateway.Users.{
  UserAccount, to_args, get_user_query, normalised, add_user, validate_user,
}
use local_drive.Gateway.Users.Login.{add_user-name, add_user-validate_user, validate_user-random}
use local_drive.Gateway.Sessions.{Session, upsert_session}
use local_drive.Gateway.Sessions.Renewal.{upsert_session-ok}
use local_drive.Upload.{Server}
use local_drive.Handlers.{Environment, responded}
use local_drive.Handlers.Accounts.{
  AccountWorld, RequestUserRegisterInfo, cookie_valid, session_given, user_added,
  post_register_user,
}
use local_drive.Handlers.Middleware.{create_request_middleware}
use local_drive.Handlers.Routes.{user_login, user_register, is_authenticated, handler, serve}
use local_drive.Handlers.Sessions.{user_login_lem}

module _ (env : Environment) where
  open env use {db, argon, to_lower}

  user_added_lem :
      (w : AccountWorld) (r : Response) (s : Server db.Store) (s' s'' : db.Store)
      (acc : UserAccount) (ses : Session)
      → w.response_fails ≡ false
      → upsert_session db w.session_id w.now s' acc.account_id ≡ (ok ses, s'')
      → user_added env w r s (ok acc, s')
        ≡ (written (success (flag true)) (set_cookie_session w.session_id r), record s { db = s'' })
  unfolding user_added session_given responded
  user_added_lem w r s s' s'' acc ses f e =
      rw (e, f, (upsert_session-ok db w.session_id w.now s' s'' acc.account_id ses e).0) refl

  user_register_lem :
      (now : ℕ) (w : AccountWorld) (cookie : Option Str) (body : RequestUserRegisterInfo)
      (s : Server db.Store) (s' s'' : db.Store) (acc : UserAccount) (ses : Session)
      → w.response_fails ≡ false
      → add_user db argon to_lower w.random w.account_id w.now s.db
          (normalised db argon to_lower w.random body.name)
          body.password
        ≡ (ok acc, s')
      → upsert_session db w.session_id w.now s' acc.account_id ≡ (ok ses, s'')
      → serve env now (user_register w (some body)) cookie s ≡ (
        written (success (flag true)) (set_cookie_session w.session_id no_response),
        record s { db = s'' },
      )
  unfolding serve is_authenticated create_request_middleware handler post_register_user
  user_register_lem now w cookie body s s' s'' acc ses f added opened =
      ap (user_added env w no_response s) added
      ∙ user_added_lem w no_response s s' s'' acc ses f opened

  -- The same password is accepted.
  pub same_password :
      (w w' : AccountWorld) (name password : Str) (s s' t : db.Store) (acc : UserAccount) (q : Str)
      (args : List Arg)
      → ((n : ℕ) (salt : List ℕ) → w.random n ≡ some salt → All IsByte salt × (length salt ≡ n))
      → add_user db argon to_lower w.random w.account_id w.now s name password ≡ (ok acc, s')
      → get_user_query acc.name ≡ ok (q, args)
      → db.query t q args ≡ ok (to_args acc ∷ [])
      → validate_user db argon to_lower w'.random t name password ≡ ok (true, some acc)
  same_password w w' name password s s' t acc q args salts added built found =
      let (valid, (salt, e, (b, result, agree))) =
        add_user-validate_user db argon to_lower w.random w.account_id w.now s s' t name name
          password password acc q args salts added built found
          (sym (
            add_user-name db argon to_lower w.random w.account_id w.now s s' name password acc
              added)) in
      validate_user-random db argon to_lower w'.random w.random t name password
      ∙ result
      ∙ ap (λ x. ok (x, some acc)) (agree.1 refl)

  -- A registration whose account and session are written, and later a login with the name and the
  -- password of the registration, without a valid session in its cookie, where the database then
  -- answers the query for the name with the account's row alone and writes the new session, and both
  -- responses are written: both answer with success, each sets the cookie to its own new session, and
  -- what is left are the writes of the database alone. A reader of random bytes fails or gives as many
  -- bytes as are asked for.
  pub user_register-user_login :
      (now later : ℕ) (w w' : AccountWorld) (cookie cookie' : Option Str)
      (body : RequestUserRegisterInfo) (s t : Server db.Store) (s' s'' t' : db.Store)
      (acc : UserAccount) (ses ses' : Session) (q : Str) (args : List Arg)
      → ((n : ℕ) (salt : List ℕ) → w.random n ≡ some salt → All IsByte salt × (length salt ≡ n))
      → w.response_fails ≡ false
      → w'.response_fails ≡ false
      → add_user db argon to_lower w.random w.account_id w.now s.db
          (normalised db argon to_lower w.random body.name)
          body.password
        ≡ (ok acc, s')
      → upsert_session db w.session_id w.now s' acc.account_id ≡ (ok ses, s'')
      → get_user_query acc.name ≡ ok (q, args)
      → db.query t.db q args ≡ ok (to_args acc ∷ [])
      → cookie_valid env w'.now cookie' t.db ≡ false
      → upsert_session db w'.session_id w'.now t.db acc.account_id ≡ (ok ses', t')
      → (serve env now (user_register w (some body)) cookie s ≡ (
        written (success (flag true)) (set_cookie_session w.session_id no_response),
        record s { db = s'' },
      ))
        × (serve env later
              (user_login w' (some (record { name = body.name; password = body.password })))
              cookie'
              t
            ≡ (
              written (success (flag true)) (set_cookie_session w'.session_id no_response),
              record t { db = t' },
            ))
  unfolding normalised
  user_register-user_login now later w w' cookie cookie' body s t s' s'' t' acc ses ses' q args
        salts f f' added opened built found stranger opened' =
      (
        user_register_lem now w cookie body s s' s'' acc ses f added opened,
        user_login_lem env later w' cookie' (record { name = body.name; password = body.password })
            t t' acc ses' stranger f'
            (same_password w w' (normalised db argon to_lower w.random body.name) body.password s.db
              s' t.db acc q args salts added built found)
            opened',
      )
