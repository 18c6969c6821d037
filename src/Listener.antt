-- ===== src/Listener.antt =====
-- src/server/server.go: the CORS headers of Start around the routes, and the registration of handlers.
-- http.Header is a map from names to values; the names that the code uses are in the form that Header
-- keeps them in. Of the ServeMux only the patterns and what is registered for them are kept.
pub mod Preflights
pub mod Patterns
mod Tests
use local_drive.Base.{
  Bool, true, false, Option, none, some, List, [], ◌∷◌, ◌++◌, Str, text, str_eq, find, insert,
  Str_eq, if◌then◌else◌,
}
use local_drive.Api.{Response}
use local_drive.Upload.{Server}
use local_drive.Handlers.{Environment}
use local_drive.Handlers.Strangers.{Visit}
use local_drive.Handlers.Routes.{serve}

abbrev pub Header : Type 0
Header = List (Str × List Str)

-- Header.Set
unfoldable pub set : Str → Str → Header → Header
set key value h = insert key (value ∷ []) h

-- The values of a key.
abbrev pub values : Option (List Str) → List Str
values none = []
values (some vs) = vs

-- Header.Add
unfoldable pub add : Str → Str → Header → Header
add key value h = insert key (values (find key h) ++ (value ∷ [])) h

-- http.StatusNoContent alone, or what the next handler answers; with the headers that were set before.
pub data Answer (A : Type 0) : Type 0 where
  no_content : Header → Answer A
  handled : Header → A → Answer A

-- The headers that cors sets for an Origin.
unfoldable pub cors_headers : Str → Header → Header
unfolding set add
cors_headers origin h = add (text "Vary") (text "Origin") (
    set (text "Access-Control-Allow-Headers") (text "Content-Type") (
      set (text "Access-Control-Allow-Methods") (text "GET, POST, PUT, PATCH, DELETE, OPTIONS") (
        set (text "Access-Control-Allow-Credentials") (text "true")
          (set (text "Access-Control-Allow-Origin") origin h))))

abbrev pub method_options : Str
method_options = text "OPTIONS"

-- cors, around a handler that takes and returns a state.
unfoldable pub cors :
    {A S : Type 0} → (S → A × S) → (origin method : Str) → Header → S → Answer A × S
unfolding cors_headers
cors next origin method h s =
    let headers = cors_headers origin h in
    if str_eq method method_options
    then (no_content headers, s)
    else (handled headers (next s).0, (next s).1)

-- A request on the connection: its Origin, its method, and the route that it is for.
pub record Call : Type 0 where
  pub origin : Str
  pub method : Str
  pub visit : Visit

module _ (env : Environment) where
  open env use {db}

  -- The handler that Start listens with.
  unfoldable pub listen : Call → Server db.Store → Answer Response × Server db.Store
  unfolding cors
  listen c s = cors (serve env c.visit.now c.visit.request c.visit.cookie) c.origin c.method [] s

  -- One call after the other.
  unfoldable pub listens : List Call → Server db.Store → List (Answer Response) × Server db.Store
  listens [] s = ([], s)
  listens (c ∷ cs) s =
      let (answer, s') = listen c s in let (answers, end) = listens cs s' in (answer ∷ answers, end)
