-- ===== src/Upload/Contract/Views.antt =====
-- How the open uploads change with the map of the sessions.
use mathlib.Core.Path.{fun_ext}
use local_drive.Base.{
  ◌≡◌, refl, sym, ap, ◌∙◌, Bool, true, false, Option, none, some, Str, insert, remove, find-insert,
  find-remove, Str_eq, str_eq, Str-eq_iff, Bool-cases, inl, inr, if◌then◌else◌,
}
use local_drive.Base.Int.{ℤ, z_eq, ℤ_eq}
use local_drive.Upload.{ChunkInfo, Server}
use local_drive.Upload.Contract.{
  Pending, Uploads, is_there, pending_of, known, view, with_upload, with_chunk,
}

known-if :
    (b : Bool) (o o' : Option ChunkInfo)
    → known (if b then o else o') ≡ (if b then known o else known o')
known-if true o o' = refl
known-if false o o' = refl

pub view-insert :
    {Store : Type 0} (s : Server Store) (id : Str) (c : ChunkInfo)
    → view (record s { upload_sessions = insert id c s.upload_sessions })
      ≡ with_upload id (some (pending_of c)) (view s)
view-insert s id c =
    fun_ext λ j. ap known (find-insert id j c s.upload_sessions) ∙ known-if (str_eq id j) _ _

pub view-remove :
    {Store : Type 0} (s : Server Store) (id : Str)
    → view (record s { upload_sessions = remove id s.upload_sessions })
      ≡ with_upload id none (view s)
view-remove s id =
    fun_ext λ j. ap known (find-remove id j s.upload_sessions) ∙ known-if (str_eq id j) _ _

-- Writing what an upload is changes nothing.
pub with_upload_same :
    (id : Str) (p : Pending) (a : Uploads) → a id ≡ some p → with_upload id (some p) a ≡ a
with_upload_same id p a h = fun_ext λ j. elim (Bool-cases (str_eq id j)) [
  | inl e ↦ rw e (sym h ∙ ap a ((Str-eq_iff id j).0 e))
  | inr e ↦ rw e refl
]

-- A chunk that is recorded is received.
pub pending_of-insert :
    (c : ChunkInfo) (i : ℤ) (path : Str)
    → pending_of (record c { chunk_indexes = insert i path c.chunk_indexes })
      ≡ with_chunk i (pending_of c)
pending_of-insert c i path =
    ap
      (λ f. record {
        owner = c.account_id;
        file_info = c.file_info;
        total = c.total_chunks;
        received = f;
      })
      (fun_ext λ j. ap is_there (find-insert i j path c.chunk_indexes) ∙ is_there-if (z_eq i j) _ _)
  where
    is_there-if :
        (b : Bool) (x : Str) (o : Option Str)
        → is_there (if b then some x else o) ≡ (if b then true else is_there o)
    is_there-if true x o = refl
    is_there-if false x o = refl
