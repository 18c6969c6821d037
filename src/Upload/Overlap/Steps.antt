-- ===== src/Upload/Overlap/Steps.antt =====
-- Calls for the chunks of one upload that overlap, as steps: a call begins, gets the mutex, lets go of
-- it.
use local_drive.Base.{
  ℕ, ◌≡◌, ◌≢◌, ◌⊎◌, true, false, Option, err, none, some, List, [], ◌∷◌, Str, ok, find, Str_eq,
}
use local_drive.Base.Int.{pos, ℤ_eq}
use local_drive.Base.Decimal.{show}
use local_drive.Api.{UserSessionInfo, Reply}
use local_drive.Upload.{ChunkInfo, FileGateway, Server}
use local_drive.Upload.Chunk.{ChunkWorld, chunk_path}
use local_drive.Upload.Held.{In}
use local_drive.Upload.Overlap.{begin_chunk, with_mutex, enter_chunk, leave_chunk}

-- A call with this index and this copy of the session is among those that have begun.
abbrev pub Begun : ℕ → ChunkInfo → List (ℕ × ChunkInfo) → Type 0
Begun j copy [] = ⊥
Begun j copy ((i, other) ∷ calls) = ((i ≡ j) × (other ≡ copy)) ⊎ Begun j copy calls

-- The call that has the mutex: what the operating system answers it, its index, and its copy of the
-- session.
pub record Holder : Type 0 where
  pub world : ChunkWorld
  pub index : ℕ
  pub cinfo : ChunkInfo

module _ (gw : FileGateway) (join_path : List Str → Str) (temp target id : Str) (n : ℕ)
    (b : ℕ → List ℕ) where
  -- Where the chunk of a call goes, and the state once it let go of the mutex.
  abbrev pub holder_path : Holder → Str
  holder_path h = chunk_path gw join_path temp h.world h.cinfo.dir (pos h.index)

  abbrev pub left : Holder → ChunkInfo → Server gw.Store → Server gw.Store
  left h now s =
      (leave_chunk gw join_path temp h.world id h.cinfo now (pos h.index) (b h.index) s).1

  -- Calls for the chunks of one upload from a server on: those that have begun, the one that has the
  -- mutex, and the indexes of those that recorded their chunk. A call begins at any time, also while
  -- another one has the mutex; it enters, with the directory of the session, when none has it; it
  -- leaves once it has recorded its chunk, for the first time or again, or fails on entering or later.
  -- CreateTemp makes the path of no file, and not the target.
  pub data Overlaps (s : Server gw.Store)
      : List (ℕ × ChunkInfo) → Option Holder → List ℕ → Server gw.Store → Type 0 where
    none_yet : Overlaps s [] none [] s
    begins :
        {calls : List (ℕ × ChunkInfo)} {holder : Option Holder} {js : List ℕ} {s' : Server gw.Store}
        → Overlaps s calls holder js s'
        → (u : UserSessionInfo) (j : ℕ) (copy : ChunkInfo)
        → begin_chunk (some u) id (show j) s' ≡ ok (copy, pos j)
        → Overlaps s ((j, copy) ∷ calls) holder js (with_mutex id s')
    enters :
        {calls : List (ℕ × ChunkInfo)} {js : List ℕ} {s' s'' : Server gw.Store}
        → Overlaps s calls none js s'
        → (w : ChunkWorld) (j : ℕ) (copy now cinfo : ChunkInfo) → Begun j copy calls
        → find id s'.upload_sessions ≡ some now
        → enter_chunk gw join_path temp w id copy now s' ≡ ok (cinfo, s'')
        → Overlaps s calls (some (record { world = w; index = j; cinfo = cinfo })) js s''
    turns_back :
        {calls : List (ℕ × ChunkInfo)} {js : List ℕ} {s' s'' : Server gw.Store}
        → Overlaps s calls none js s'
        → (w : ChunkWorld) (j : ℕ) (copy now : ChunkInfo) (reply : Reply) → Begun j copy calls
        → find id s'.upload_sessions ≡ some now
        → enter_chunk gw join_path temp w id copy now s' ≡ err (reply, s'')
        → Overlaps s calls none js s''
    leaves :
        {calls : List (ℕ × ChunkInfo)} {h : Holder} {js : List ℕ} {s' : Server gw.Store}
        → Overlaps s calls (some h) js s'
        → (now : ChunkInfo) → find id s'.upload_sessions ≡ some now
        → h.world.create_fails ≡ false
        → h.world.copy_fails ≡ none
        → find (holder_path h) s'.disk.files ≡ none
        → target ≢ holder_path h
        → ¬ In h.index js
        → Overlaps s calls none (h.index ∷ js) (left h now s')
    leaves_again :
        {calls : List (ℕ × ChunkInfo)} {h : Holder} {js : List ℕ} {s' : Server gw.Store}
        → Overlaps s calls (some h) js s'
        → (now : ChunkInfo) → find id s'.upload_sessions ≡ some now
        → h.world.create_fails ≡ false
        → h.world.copy_fails ≡ none
        → find (holder_path h) s'.disk.files ≡ none
        → target ≢ holder_path h
        → In h.index js
        → Overlaps s calls none js (left h now s')
    breaks :
        {calls : List (ℕ × ChunkInfo)} {h : Holder} {js : List ℕ} {s' : Server gw.Store}
        → Overlaps s calls (some h) js s'
        → (now : ChunkInfo) → find id s'.upload_sessions ≡ some now
        → (h.world.create_fails ≡ true)
          ⊎ (h.world.create_fails ≡ false) × (m : ℕ) × (h.world.copy_fails ≡ some m)
        → find (holder_path h) s'.disk.files ≡ none
        → Overlaps s calls none js (left h now s')
