-- ===== src/Upload/Tests/Interleaved.antt =====
-- Witnesses of a call in its parts, and of calls that overlap: the call for the first chunk begins while the call for the second one
-- has the mutex.
use local_drive.Base.{
  ℕ, zero, suc, ◌<◌, ◌≡◌, ◌≢◌, refl, inl, inr, none, some, ok, List, [], ◌∷◌, text, str_eq,
  str_eq-false, find, insert, Str_eq, arith,
}
use local_drive.Base.Int.{pos, ℤ_eq}
use local_drive.Base.Decimal.{show}
use local_drive.Files.{File, new_file}
use local_drive.Upload.{ChunkInfo, Server, mutex_get, make_dir, show_int}
use local_drive.Upload.Generate.{new_entry, new_session}
use local_drive.Upload.Chunk.{chunk_path, recorded, copied, written}
use local_drive.Upload.Complete.{stored_path, account_dir}
use local_drive.Upload.Held.{In, IsWhole}
use local_drive.Upload.Overlap.{
  with_mutex, enter_new_dir, enter_chunk, leave_chunk, begin_chunk-accepted,
}
use local_drive.Upload.Overlap.Steps.{
  Holder, Overlaps, none_yet, begins, enters, leaves, left, holder_path,
}
use local_drive.Upload.Interleaved.{Overlaps-upload_file_complete}
use local_drive.Upload.Tests.{
  ada, bytes_at, chunk_world, complete_world, id, join_path, keeping, session,
}
use local_drive.Upload.Tests.Whole.{started, goal, started_session}

abbrev fresh : ChunkInfo
fresh = record session { chunk_indexes = [] }

-- The session once it has its directory.
abbrev placed : ChunkInfo
placed = record fresh { dir = text "tmp/lcschunks/u1/" }

abbrev one_begun : Server (List File)
one_begun = with_mutex id started

abbrev one_entered : Server (List File)
one_entered = record one_begun {
  disk = make_dir placed.dir one_begun.disk;
  upload_sessions = insert id placed one_begun.upload_sessions;
}

abbrev both_begun : Server (List File)
both_begun = with_mutex id one_entered

abbrev holder : ℕ → ChunkInfo → Holder
holder j cinfo = record { world = chunk_world; index = j; cinfo = cinfo }

abbrev leaving : Holder → ChunkInfo → Server (List File) → Server (List File)
leaving h now s = left keeping join_path (text "tmp") goal id 2 bytes_at h now s

abbrev one_left : Server (List File)
one_left = leaving (holder 1 placed) placed both_begun

abbrev now : ChunkInfo
now = record placed { chunk_indexes = (pos 1, text "tmp/lcschunks/u1//chunk-i01-77") ∷ [] }

abbrev both_left : Server (List File)
both_left = leaving (holder 0 now) now one_left

abbrev Goes : Holder → Server (List File) → Type 0
Goes h s =
    (find (holder_path keeping join_path (text "tmp") goal id 2 bytes_at h) s.disk.files ≡ none)
    × (goal ≢ holder_path keeping join_path (text "tmp") goal id 2 bytes_at h)

entered_test :
    enter_chunk keeping join_path (text "tmp") chunk_world id fresh fresh one_begun
    ≡ ok (placed, one_entered)
unfolding enter_chunk enter_new_dir find insert text str_eq new_session mutex_get
entered_test = refl

placed_test : find id one_entered.upload_sessions ≡ some placed
unfolding find insert text str_eq new_session
placed_test = refl

first_test : Goes (holder 1 placed) both_begun
unfolding find text str_eq chunk_path show_int show stored_path account_dir new_session new_entry
    new_file insert mutex_get
first_test = (refl, str_eq-false goal _ refl)

now_test : find id one_left.upload_sessions ≡ some now
unfolding find insert text str_eq chunk_path show_int show new_session new_entry new_file
    leave_chunk written copied recorded mutex_get
now_test = refl

again_entered_test :
    enter_chunk keeping join_path (text "tmp") chunk_world id placed now one_left
    ≡ ok (now, one_left)
unfolding enter_chunk find insert text str_eq new_session mutex_get leave_chunk written copied
    recorded
again_entered_test = refl

second_test : Goes (holder 0 now) one_left
unfolding find insert text str_eq chunk_path show_int show stored_path account_dir new_session
    new_entry new_file leave_chunk written copied recorded mutex_get
second_test = (refl, str_eq-false goal _ refl)

overlaps :
    Overlaps keeping join_path
      (text "tmp")
      goal
      id
      2
      bytes_at
      started
      ((0, placed) ∷ (1, fresh) ∷ [])
      none
      (0 ∷ 1 ∷ [])
      both_left
unfolding new_session
overlaps =
    leaves
      (enters
        (leaves
          (begins
            (enters
              (begins none_yet ada 1 fresh (
                begin_chunk-accepted ada id started fresh 2 1 started_session refl (omega arith)
                  (omega arith) (λ e. omega (arith, e))))
              chunk_world 1 fresh fresh placed (inl (refl, refl)) started_session entered_test)
            ada 0 placed
            (begin_chunk-accepted ada id one_entered placed 2 0 placed_test refl (omega arith)
              (omega arith) (λ e. omega (arith, e))))
          placed placed_test refl refl first_test.0 first_test.1 (λ h. h))
        chunk_world 0 placed now now (inl (refl, refl)) now_test again_entered_test)
      now now_test refl refl second_test.0 second_test.1 (λ h. elim h [ inl e ↦ cc | inr k ↦ k ])

every : (j : ℕ) → j < 2 → In j (0 ∷ 1 ∷ [])
every zero h = inl refl
every (suc zero) h = inr (inl refl)
every (suc (suc j)) h = absurd (omega arith)

Overlaps-upload_file_complete_example :
    IsWhole keeping join_path
      (text "tmp")
      goal
      id
      2
      bytes_at
      (text "store")
      2000
      complete_world
      ada
      fresh
      both_left
unfolding text new_session stored_path
Overlaps-upload_file_complete_example =
    Overlaps-upload_file_complete keeping join_path (text "tmp") goal id 2 bytes_at (text "store")
      2000 complete_world ada fresh started both_left ((0, placed) ∷ (1, fresh) ∷ []) none
      (0 ∷ 1 ∷ []) refl started_session refl refl refl overlaps refl every
      (record { mkdir = refl; create = refl; opens = λ j. refl; copies = λ j. refl })
