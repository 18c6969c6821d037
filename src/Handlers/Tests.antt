-- ===== src/Handlers/Tests.antt =====
-- Witnesses of the handlers, on a database that answers each query with its content, and whose every
-- statement replaces the content by the same rows.
mod Sessions
mod Registration
mod Download
mod Isolation
use local_drive.Base.{
  ℕ, ◌≡◌, ◌≢◌, refl, sym, ◌∙◌, Bool, str_eq, Result, true, false, Option, none, some, List, [], ◌∷◌,
  Str, text, join, ok, All, replicate,
}
use local_drive.Base.Spaces.{trim_space}
use local_drive.Sql.Placeholder.{Arg, str, time}
use local_drive.Api.{UserSessionInfo, no_response, written, unauthorized_error}
use local_drive.Hasher.Compare.{Random}
use local_drive.Hasher.Tests.{toy}
use local_drive.Database.{Database, GatewayError}
use local_drive.Database.Rows.{select_rows}
use local_drive.Gateway.Sessions.{
  scan_session, tested, answered, validate_id, validate_session_and_get_user,
}
use local_drive.Upload.{Server}
use local_drive.Upload.Complete.{CompleteWorld}
use local_drive.Handlers.{Environment}
use local_drive.Handlers.Accounts.{AccountWorld}
use local_drive.Handlers.Routes.{
  Request, user_get, file_delete, session_get, upload_fail, is_authenticated, serve,
}
use local_drive.Handlers.Access.{HasSession, IsRefused, serve-IsRefused}
use local_drive.Handlers.Strangers.{Visit, IsStranger, visits, visits-strangers}

abbrev pub replacing : List (List Arg) → Database
replacing next = record {
  Store = List (List Arg);
  query = λ s query args. ok s;
  begin_ok = λ s. true;
  execute = λ s query args. ok (1, next);
  commit_ok = λ s. true;
  commit_lost = λ s. false;
}

abbrev as_is : Str → Str
as_is s = s

abbrev pub environment : List (List Arg) → Environment
environment next = record {
  db = replacing next;
  sha256 = as_is;
  join_path = join (text "/");
  to_lower = as_is;
  is_uuid = λ s. true;
  path_escape = as_is;
  argon = toy;
  storage = text "store";
  temp = text "tmp";
}

abbrev pub server : List (List Arg) → Server (List (List Arg))
server rows = record {
  upload_sessions = [];
  upload_mutex = [];
  disk = record { files = (text "kept", 7 ∷ []) ∷ []; dirs = [] };
  db = rows;
}

abbrev pub sevens : Random
sevens n = some (replicate n 7)

abbrev pub session_id : Str
session_id = text "6f1c"

abbrev pub world : AccountWorld
world = record {
  now = 100;
  account_id = text "acc";
  session_id = session_id;
  random = sevens;
  session_response_fails = false;
  response_fails = false;
}

-- The rows of a session of Ada's that ends at a time.
abbrev pub session_rows : ℕ → List (List Arg)
session_rows expire_on =
    (str session_id ∷ time expire_on ∷ str (text "ada.lovelace") ∷ str (text "acc") ∷ []) ∷ []

abbrev pub complete_world : CompleteWorld
complete_world = record {
  mkdir_fails = false;
  create_fails = false;
  open_fails = λ i. false;
  copy_fails = λ i. none;
  remove_fails = λ path. false;
  response_fails = false;
}

expired_test :
    validate_session_and_get_user (replacing []) 60 (session_rows 50) session_id ≡ ok (false, none)
unfolding validate_session_and_get_user validate_id answered tested select_rows scan_session
    trim_space text str_eq
expired_test = refl

-- A session that ended at 50 is not valid at 60.
expired :
    (user : UserSessionInfo)
    → ¬ HasSession (environment []) 60 (some session_id) (server (session_rows 50)) user
expired user h = stale (sym expired_test ∙ h)
  where
    stale :
        {o o' : Option UserSessionInfo}
        → ◌≢◌ {A = Result GatewayError (Bool × Option UserSessionInfo)}
            (ok (false, o))
            (ok (true, o'))
    stale e = cc

abbrev passing : List Visit
passing =
    record { now = 60; request = user_get false; cookie = some session_id }
    ∷ record { now = 60; request = session_get 60 false; cookie = some session_id }
    ∷ []

passing_test : All (IsStranger (environment []) (server (session_rows 50))) passing
passing_test = (
  record { session = expired; request = λ h. h },
  (record { session = expired; request = λ h. h }, tt),
)

visits-strangers_example :
    visits (environment []) passing (server (session_rows 50)) ≡ server (session_rows 50)
visits-strangers_example =
    visits-strangers (environment []) passing (server (session_rows 50)) passing_test
