-- ===== src/Handlers/Strangers.antt =====
-- Requests one after the other, none of them with a valid session.
use local_drive.Base.{ℕ, ◌≡◌, refl, ap, ◌∙◌, ◌⊎◌, inl, inr, true, Option, List, [], ◌∷◌, Str, All}
use local_drive.Api.{UserSessionInfo}
use local_drive.Upload.{Server}
use local_drive.Upload.Complete.{upload_file_status_failed}
use local_drive.Handlers.{Environment}
use local_drive.Handlers.Middleware.{create_request_middleware}
use local_drive.Handlers.Routes.{
  Request, session_get, user_register, user_login, upload_fail, is_authenticated, handler, serve,
}
use local_drive.Handlers.Access.{HasSession, IsRefused, serve-IsRefused}

-- A request with its time and its cookie.
pub record Visit : Type 0 where
  pub now : ℕ
  pub request : Request
  pub cookie : Option Str

-- Registering and logging in need no session.
abbrev pub Enters : Request → Type 0
Enters (user_register w body) = Unit
Enters (user_login w body) = Unit
Enters _ = ⊥

-- The requests to the routes that need no session.
abbrev IsOpen : Request → Type 0
IsOpen (session_get now response_fails) = Unit
IsOpen (user_register w body) = Unit
IsOpen (user_login w body) = Unit
IsOpen (upload_fail now w id) = Unit
IsOpen _ = ⊥

is_authenticated-cases : (q : Request) → (is_authenticated q ≡ true) ⊎ IsOpen q
unfolding is_authenticated
is_authenticated-cases (session_get now f) = inr tt
is_authenticated-cases (user_register w body) = inr tt
is_authenticated-cases (user_login w body) = inr tt
is_authenticated-cases (upload_fail now w id) = inr tt
is_authenticated-cases _ = inl refl

module _ (env : Environment) where
  open env use {db}

  unfoldable pub visits : List Visit → Server db.Store → Server db.Store
  visits [] s = s
  visits (v ∷ vs) s = visits vs (serve env v.now v.request v.cookie s).1

  -- A visitor without a valid session who does not register or log in.
  pub record IsStranger (s : Server db.Store) (v : Visit) : Type 0 where
    pub session : (user : UserSessionInfo) → ¬ HasSession env v.now v.cookie s user
    pub request : ¬ Enters v.request

  IsRefused-kept :
      (s : Server db.Store) (out : _ × Server db.Store) → IsRefused env s out → out.1 ≡ s
  IsRefused-kept s out (inl e) = ap (λ r. r.1) e
  IsRefused-kept s out (inr e) = ap (λ r. r.1) e

  open-kept :
      (now : ℕ) (q : Request) (cookie : Option Str) (s : Server db.Store)
      → IsOpen q
      → ¬ Enters q
      → (serve env now q cookie s).1 ≡ s
  unfolding serve is_authenticated create_request_middleware handler upload_file_status_failed
  open-kept now (session_get t f) cookie s h k = refl
  open-kept now (user_register w body) cookie s h k = absurd (k tt)
  open-kept now (user_login w body) cookie s h k = absurd (k tt)
  open-kept now (upload_fail t w id) cookie s h k = refl
  open-kept now _ cookie s h k = absurd h

  serve-kept :
      (v : Visit) (s : Server db.Store)
      → IsStranger s v
      → (serve env v.now v.request v.cookie s).1 ≡ s
  serve-kept v s h = elim (is_authenticated-cases v.request) [
    | inl e ↦ IsRefused-kept s _ (serve-IsRefused env v.now v.request v.cookie s e h.session)
    | inr o ↦ open-kept v.now v.request v.cookie s o h.request
  ]

  -- Whatever requests come, one after the other, as long as none registers or logs in and none has a
  -- cookie of a session that is valid at its time: the uploads, the disk and the database stay as they
  -- were.
  pub visits-strangers :
      (vs : List Visit) (s : Server db.Store) → All (IsStranger s) vs → visits vs s ≡ s
  unfolding visits
  visits-strangers [] s h = refl
  visits-strangers (v ∷ vs) s (h, hs) = ap (visits vs) (serve-kept v s h) ∙ visits-strangers vs s hs
