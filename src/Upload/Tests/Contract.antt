-- ===== src/Upload/Tests/Contract.antt =====
-- Witnesses of the contract: an upload is opened, gets its first chunk, and is completed too soon.
use local_drive.Base.{◌≡◌, ◌≢◌, refl, some, [], ◌∷◌, ◌++◌, Str, text, str_eq, str_eq-false, List}
use local_drive.Upload.Requests.{Request, complete, run, new_file_handler}
use local_drive.Upload.Contract.{view, Steps}
use local_drive.Upload.Contract.Runs.{replies, run-Steps}
use local_drive.Upload.Contract.Others.{run-others}
use local_drive.Upload.Tests.{
  keeping, as_is, join_path, ada, complete_world, id, empty_disk, requests,
}

abbrev too_soon : List Request
too_soon = requests ++ (complete 1500 complete_world (some ada) id ∷ [])

run-Steps_example :
    Steps
      (view (new_file_handler keeping empty_disk []))
      too_soon
      (replies keeping as_is join_path
        (text "store")
        (text "tmp")
        too_soon
        (new_file_handler keeping empty_disk []))
      (view (
        run keeping as_is join_path
          (text "store")
          (text "tmp")
          too_soon
          (new_file_handler keeping empty_disk [])))
run-Steps_example =
    run-Steps keeping as_is join_path (text "store") (text "tmp") too_soon
      (new_file_handler keeping empty_disk [])

abbrev another : Str
another = text "u2"

apart : id ≢ another
unfolding text str_eq
apart = str_eq-false id another refl

run-others_example :
    view
      (run keeping as_is join_path
        (text "store")
        (text "tmp")
        too_soon
        (new_file_handler keeping empty_disk []))
      another
    ≡ view (new_file_handler keeping empty_disk []) another
run-others_example =
    run-others keeping as_is join_path (text "store") (text "tmp") another too_soon
      (new_file_handler keeping empty_disk []) (apart, (apart, (apart, tt)))
