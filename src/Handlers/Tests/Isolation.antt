-- ===== src/Handlers/Tests/Isolation.antt =====
-- Witness of the isolation of accounts, on a database that fails on a query without arguments.
use local_drive.Base.{◌≡◌, refl, false, none, some, List, [], ◌∷◌, Str, text, Result, ok, err}
use local_drive.Sql.Placeholder.{Arg, str}
use local_drive.Api.{UserSessionInfo}
use local_drive.Database.{SqlError, other_error}
use local_drive.Gateway.Files.Listing.Isolation.{Has}
use local_drive.Handlers.Reads.{DownloadWorld, download_file, get_files, get_folder_breadcrumbs}
use local_drive.Handlers.Isolation.{with_query, reads-with_query}
use local_drive.Handlers.Sessions.{info_of}
use local_drive.Handlers.Tests.{environment, server, session_id, session_rows}

failing : List (List Arg) → Str → List Arg → Result SqlError (List (List Arg))
failing s query [] = err other_error
failing s query (a ∷ args) = ok s

abbrev ada : UserSessionInfo
ada = info_of session_id 50 (text "ada.lovelace") (text "acc")

same_test :
    (s : List (List Arg)) (query : Str) (args : List Arg)
    → Has (str (text "acc")) args
    → failing s query args ≡ ok s
unfolding failing
same_test s query [] h = absurd h
same_test s query (a ∷ args) h = refl

abbrev download_world : DownloadWorld
download_world = record { open_fails = false; copy_fails = none }

reads-with_query_example :
    (get_files
        (with_query (environment []) failing)
        false
        (some ada)
        (text "f1")
        (text "trash")
        (server (session_rows 50))
      ≡ get_files
          (environment [])
          false
          (some ada)
          (text "f1")
          (text "trash")
          (server (session_rows 50)))
    × (get_folder_breadcrumbs
          (with_query (environment []) failing)
          false
          (some ada)
          (text "f1")
          (server (session_rows 50))
        ≡ get_folder_breadcrumbs
            (environment [])
            false
            (some ada)
            (text "f1")
            (server (session_rows 50)))
    × (download_file
          (with_query (environment []) failing)
          download_world
          (some ada)
          (text "f1")
          (server (session_rows 50))
        ≡ download_file
            (environment [])
            download_world
            (some ada)
            (text "f1")
            (server (session_rows 50)))
reads-with_query_example =
    reads-with_query (environment []) failing ada same_test false download_world (text "f1")
      (text "trash") (server (session_rows 50))
