-- ===== src/Listener/Preflights.antt =====
-- What the CORS headers around the routes do.
use local_drive.Base.{
  ◌≡◌, refl, Bool-cases, inl, inr, true, false, List, [], ◌∷◌, Str, text, str_eq, find, insert,
  Str_eq, if◌then◌else◌,
}
use local_drive.Api.{Response}
use local_drive.Upload.{Server}
use local_drive.Handlers.{Environment}
use local_drive.Handlers.Routes.{serve}
use local_drive.Handlers.Strangers.{Visit, visits}
use local_drive.Listener.{
  Header, Answer, no_content, handled, Call, method_options, set, add, cors_headers, cors, listen,
  listens,
}

-- The origin is let in, with its cookies.
abbrev pub allowing : Str → Header
allowing origin =
    (text "Access-Control-Allow-Origin", origin ∷ [])
    ∷ (text "Access-Control-Allow-Credentials", text "true" ∷ [])
    ∷ (text "Access-Control-Allow-Methods", text "GET, POST, PUT, PATCH, DELETE, OPTIONS" ∷ [])
    ∷ (text "Access-Control-Allow-Headers", text "Content-Type" ∷ [])
    ∷ (text "Vary", text "Origin" ∷ [])
    ∷ []

cors_headers-allowing : (origin : Str) → cors_headers origin [] ≡ allowing origin
unfolding cors_headers set add insert find str_eq text
cors_headers-allowing origin = refl

-- The visits of the calls that are not asked with OPTIONS.
abbrev pub visits_of : List Call → List Visit
visits_of [] = []
visits_of (c ∷ cs) = if str_eq c.method method_options then visits_of cs else c.visit ∷ visits_of cs

module _ (env : Environment) where
  open env use {db}

  -- What calls are answered: no content, or the response of the route in the state so far.
  abbrev pub answers : List Call → Server db.Store → List (Answer Response)
  answers [] s = []
  answers (c ∷ cs) s =
      if str_eq c.method method_options
      then no_content (allowing c.origin) ∷ answers cs s
      else handled (allowing c.origin) (serve env c.visit.now c.visit.request c.visit.cookie s).0
        ∷ answers cs (serve env c.visit.now c.visit.request c.visit.cookie s).1

  listen-options :
      (c : Call) (s : Server db.Store)
      → str_eq c.method method_options ≡ true
      → listen env c s ≡ (no_content (allowing c.origin), s)
  unfolding listen cors
  listen-options c s e = rw (e, cors_headers-allowing c.origin) refl

  listen-other :
      (c : Call) (s : Server db.Store)
      → str_eq c.method method_options ≡ false
      → listen env c s ≡ (
        handled (allowing c.origin) (serve env c.visit.now c.visit.request c.visit.cookie s).0,
        (serve env c.visit.now c.visit.request c.visit.cookie s).1,
      )
  unfolding listen cors
  listen-other c s e = rw (e, cors_headers-allowing c.origin) refl

  -- Whatever calls come, one after the other: a call with OPTIONS is answered without content and
  -- changes nothing, and is not handed to its route, with the cookie of a session or not; every other
  -- call is answered by its route as if the calls with OPTIONS had not been. Each answer allows the
  -- origin that was asked from, whichever it is, with credentials.
  pub listens-visits :
      (cs : List Call) (s : Server db.Store)
      → listens env cs s ≡ (answers cs s, visits env (visits_of cs) s)
  unfolding listens visits
  listens-visits [] s = refl
  listens-visits (c ∷ cs) s = elim (Bool-cases (str_eq c.method method_options)) [
    | inl e ↦ rw (listen-options c s e, e, listens-visits cs s) refl
    | inr e ↦
        rw
          (
            listen-other c s e,
            e,
            listens-visits cs (serve env c.visit.now c.visit.request c.visit.cookie s).1,
          )
          refl
  ]
