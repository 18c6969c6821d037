-- ===== src/Upload/Contract/Others.antt =====
-- What the contract says of the uploads that requests do not name.
use local_drive.Base.{
  ◌≡◌, ◌≢◌, refl, ◌∙◌, Option, some, List, Str, str_eq, Str-eq_iff, Bool-cases, inl, inr, All,
}
use local_drive.Api.{Reply}
use local_drive.Upload.{FileGateway, Server}
use local_drive.Upload.Requests.{Request, generate, chunk, complete, fail, run}
use local_drive.Upload.Contract.{
  Pending, Uploads, with_upload, view, Step, refused, opens, receives, completes, fails, Steps,
  none_left, and_then,
}
use local_drive.Upload.Contract.Runs.{run-Steps}

-- The ID of the upload that a request is for; the generated ID of a new one.
abbrev pub upload_of : Request → Str
upload_of (generate id file_id now user body) = id
upload_of (chunk w user id value body) = id
upload_of (complete now w user id) = id
upload_of (fail now w user id) = id

with_upload_other :
    (id j : Str) (o : Option Pending) (a : Uploads) → id ≢ j → with_upload id o a j ≡ a j
with_upload_other id j o a h = elim (Bool-cases (str_eq id j)) [
  | inl e ↦ absurd (h ((Str-eq_iff id j).0 e))
  | inr e ↦ rw e refl
]

Step-others :
    (j : Str) {a b : Uploads} {q : Request} {reply : Reply}
    → Step a q reply b
    → upload_of q ≢ j
    → b j ≡ a j
Step-others j (refused ns) h = refl
Step-others j {a} (opens id file_id now u meta p e f g k l) h = with_upload_other id j (some p) a h
Step-others j {a} (receives w u id value body i p e f g k) h = with_upload_other id j _ a h
Step-others j {a} (completes now w u id p response e f) h = with_upload_other id j _ a h
Step-others j {a} (fails now w u id p e) h = with_upload_other id j _ a h

-- The contract alone keeps an upload that no request names.
Steps-others :
    (j : Str) {a b : Uploads} {qs : List Request} {rs : List Reply}
    → Steps a qs rs b
    → All (λ q. upload_of q ≢ j) qs
    → b j ≡ a j
Steps-others j none_left h = refl
Steps-others j (and_then step steps) (h, hs) = Steps-others j steps hs ∙ Step-others j step h

module _ (gw : FileGateway) (sha256 : Str → Str) (join_path : List Str → Str)
    (storage temp : Str) where
  -- Whatever requests come, one after the other, none of which is for an upload: the upload stays open
  -- or closed as it was, with its owner, its file, its number of chunks and the indexes that it has
  -- received.
  pub run-others :
      (j : Str) (qs : List Request) (s : Server gw.Store)
      → All (λ q. upload_of q ≢ j) qs
      → view (run gw sha256 join_path storage temp qs s) j ≡ view s j
  run-others j qs s h = Steps-others j (run-Steps gw sha256 join_path storage temp qs s) h
