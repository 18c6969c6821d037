-- ===== src/Listener/Tests.antt =====
-- Witnesses of the CORS headers and of the registrations: an OPTIONS call with the cookie of a session,
-- and the same call with DELETE.
use local_drive.Base.{◌≡◌, false, some, List, [], ◌∷◌, Str, text}
use local_drive.Handlers.Tests.{environment, server, session_id, session_rows}
use local_drive.Handlers.Routes.{file_delete}
use local_drive.Handlers.Strangers.{visits}
use local_drive.Listener.{Call, listens}
use local_drive.Listener.Preflights.{answers, visits_of, listens-visits}

abbrev deleting : Str → Call
deleting method = record {
  origin = text "https://elsewhere.example";
  method = method;
  visit = record { now = 40; request = file_delete false 40 (text "f1"); cookie = some session_id };
}

abbrev calls : List Call
calls = deleting (text "OPTIONS") ∷ deleting (text "DELETE") ∷ []

listens-visits_example : listens (environment []) calls (server (session_rows 50)) ≡ (
  answers (environment []) calls (server (session_rows 50)),
  visits (environment []) (visits_of calls) (server (session_rows 50)),
)
listens-visits_example = listens-visits (environment []) calls (server (session_rows 50))
