-- ===== src/Upload/Interleaved.antt =====
-- An upload whose chunk calls overlap in any way, and then UploadFileComplete.
use mathlib.Core.Option.{some-injective}
use local_drive.Base.{
  refl, ℕ, ◌<◌, ◌≡◌, ◌≢◌, sym, ap, subst, ◌∙◌, ◌⊎◌, inl, inr, true, false, Option, Result, err,
  none, some, List, [], ◌∷◌, Str, ok, find, length, Str_eq,
}
use local_drive.Base.Int.{pos, ℤ_eq}
use local_drive.Base.Decimal.{show}
use local_drive.Base.Spaces.{is_empty}
use local_drive.Api.{UserSessionInfo, Reply}
use local_drive.Upload.{ChunkInfo, FileGateway, Server}
use local_drive.Upload.Chunk.{ChunkWorld}
use local_drive.Upload.Complete.{CompleteWorld, stored_path}
use local_drive.Upload.Held.{
  In, Holds, record-Holds, fresh-Holds, IsCompleting, IsWhole, Holds-upload_file_complete,
}
use local_drive.Upload.Overlap.{begin_chunk, with_mutex, shared, enter_chunk, begin_chunk-ok}
use local_drive.Upload.Kept.{
  AgreesWith, moved-Holds, again-Holds, Goes, enter_chunk-Goes, leave_chunk-IsTaken,
  leave_chunk-IsBroken,
}
use local_drive.Upload.Overlap.Steps.{
  Begun, Holder, Overlaps, none_yet, begins, enters, turns_back, leaves, leaves_again, breaks,
  holder_path, left,
}

module _ (gw : FileGateway) (join_path : List Str → Str) (temp target id : Str) (n : ℕ)
    (b : ℕ → List ℕ) where
  abbrev Held : ChunkInfo → List ℕ → Server gw.Store → Type 0
  Held c js s = Holds gw join_path temp target id n b c js s

  abbrev Agrees : ChunkInfo → ChunkInfo → Type 0
  Agrees c copy = AgreesWith gw join_path temp target id n b c copy

  abbrev path_of : Holder → Str
  path_of h = holder_path gw join_path temp target id n b h

  abbrev left_by : Holder → ChunkInfo → Server gw.Store → Server gw.Store
  left_by h now s = left gw join_path temp target id n b h now s

  AgreesAll : ChunkInfo → List (ℕ × ChunkInfo) → Type 0
  AgreesAll c calls = (j : ℕ) (copy : ChunkInfo) → Begun j copy calls → Agrees c copy

  abbrev HolderAgrees : ChunkInfo → Option Holder → Type 0
  HolderAgrees c none = Unit
  HolderAgrees c (some h) = Agrees c h.cinfo

  -- What every state of the calls keeps, for the session as it was opened.
  record Keeps (c : ChunkInfo) (calls : List (ℕ × ChunkInfo)) (holder : Option Holder) (js : List ℕ)
      (s : Server gw.Store) : Type 0 where
    pub holds : Held c js s
    pub begun : AgreesAll c calls
    pub holding : HolderAgrees c holder

  begins-Keeps :
      (c : ChunkInfo) (calls : List (ℕ × ChunkInfo)) (holder : Option Holder) (js : List ℕ)
      (s : Server gw.Store) (u : UserSessionInfo) (j : ℕ) (copy : ChunkInfo)
      → Keeps c calls holder js s
      → begin_chunk (some u) id (show j) s ≡ ok (copy, pos j)
      → Keeps c ((j, copy) ∷ calls) holder js (with_mutex id s)
  unfolding AgreesAll
  begins-Keeps c calls holder js s u j copy k e =
      let h = k.holds in
      let now : h.now ≡ copy =
        some-injective h.now copy (sym h.found ∙ begin_chunk-ok u id (show j) s copy (pos j) e) in
      record {
        holds =
            moved-Holds gw join_path temp target id n b c h.now js s (with_mutex id s) h
              (h.total, h.account, h.entry) refl h.found (λ q bytes same. same);
        begun = λ i other mine. elim mine [
          | inl (_, same) ↦ subst (Agrees c) (now ∙ same) (h.total, h.account, h.entry)
          | inr before ↦ k.begun i other before
        ];
        holding = k.holding;
      }

  enters-Goes :
      (c copy now : ChunkInfo) (calls : List (ℕ × ChunkInfo)) (js : List ℕ) (s : Server gw.Store)
      (w : ChunkWorld) (j : ℕ) (r : Result (Reply × Server gw.Store) (ChunkInfo × Server gw.Store))
      → Keeps c calls none js s
      → Begun j copy calls
      → find id s.upload_sessions ≡ some now
      → enter_chunk gw join_path temp w id copy now s ≡ r
      → Goes gw join_path temp target id n b c js r
  unfolding AgreesAll
  enters-Goes c copy now calls js s w j r k mine found e =
      subst (Goes gw join_path temp target id n b c js) e (
        enter_chunk-Goes gw join_path temp target id n b c copy now js s w k.holds
          (k.begun j copy mine) found)

  module _ (c now : ChunkInfo) (calls : List (ℕ × ChunkInfo)) (h : Holder) (js : List ℕ)
      (s : Server gw.Store) (k : Keeps c calls (some h) js s)
      (found : find id s.upload_sessions ≡ some now)
      (fresh : find (path_of h) s.disk.files ≡ none) where
    same_chunks : now.chunk_indexes ≡ k.holds.now.chunk_indexes
    same_chunks =
        ap (λ (x : ChunkInfo). x.chunk_indexes)
          (some-injective now k.holds.now (sym found ∙ k.holds.found))

    leaves-Holds :
        h.world.create_fails ≡ false
        → h.world.copy_fails ≡ none
        → target ≢ path_of h
        → ¬ In h.index js
        → Held c (h.index ∷ js) (left_by h now s)
    leaves-Holds create copy apart new =
        let t =
          leave_chunk-IsTaken gw join_path temp target id n b h.world h.cinfo now h.index s create
            copy in
        let (total, account, entry) = k.holding in
        record-Holds gw join_path temp target id n b c (shared h.cinfo now) js s (left_by h now s)
          h.index (path_of h) k.holds new total account entry same_chunks t.session t.held t.others
          fresh apart

    leaves_again-Holds :
        h.world.create_fails ≡ false
        → h.world.copy_fails ≡ none
        → target ≢ path_of h
        → In h.index js
        → Held c js (left_by h now s)
    leaves_again-Holds create copy apart there =
        let t =
          leave_chunk-IsTaken gw join_path temp target id n b h.world h.cinfo now h.index s create
            copy in
        again-Holds gw join_path temp target id n b c (shared h.cinfo now) js s (left_by h now s)
          h.index (path_of h) k.holds there k.holding same_chunks t.session t.held t.others fresh
          apart

    breaks-Holds :
        (h.world.create_fails ≡ true)
          ⊎ (h.world.create_fails ≡ false) × (m : ℕ) × (h.world.copy_fails ≡ some m)
        → Held c js (left_by h now s)
    breaks-Holds failure =
        let t =
          leave_chunk-IsBroken gw join_path temp target id n b h.world h.cinfo now h.index s
            failure in
        let old = k.holds in
        moved-Holds gw join_path temp target id n b c old.now js s (left_by h now s) old
          (old.total, old.account, old.entry) refl (t.session ∙ old.found)
          (λ q bytes e. t.others q (λ same. cc (same, fresh, e)) ∙ e)

  Overlaps-Keeps :
      (c : ChunkInfo) (s : Server gw.Store) {calls : List (ℕ × ChunkInfo)} {holder : Option Holder}
      {js : List ℕ} {s' : Server gw.Store}
      → Held c [] s
      → Overlaps gw join_path temp target id n b s calls holder js s'
      → Keeps c calls holder js s'
  unfolding AgreesAll
  Overlaps-Keeps c s h none_yet = record {
    holds = h;
    begun = λ j copy mine. absurd mine;
    holding = tt;
  }
  Overlaps-Keeps c s h (begins {calls} {holder} {js} {s'} before u j copy e) =
      begins-Keeps c calls holder js s' u j copy (Overlaps-Keeps c s h before) e
  Overlaps-Keeps c s h (enters {calls} {js} {s'} {s''} before w j copy now cinfo mine found e) =
      let k = Overlaps-Keeps c s h before in
      let (held, agree) = enters-Goes c copy now calls js s' w j (ok (cinfo, s'')) k mine found e in
      record { holds = held; begun = k.begun; holding = agree }
  Overlaps-Keeps c s h (turns_back {calls} {js} {s'} {s''} before w j copy now reply mine found e) =
      let k = Overlaps-Keeps c s h before in
      record {
        holds = enters-Goes c copy now calls js s' w j (err (reply, s'')) k mine found e;
        begun = k.begun;
        holding = tt;
      }
  Overlaps-Keeps c s h
        (leaves {calls} {h = holder} {js} {s'} before now found create copy fresh apart new) =
      let k = Overlaps-Keeps c s h before in
      record {
        holds = leaves-Holds c now calls holder js s' k found fresh create copy apart new;
        begun = k.begun;
        holding = tt;
      }
  Overlaps-Keeps c s h
        (leaves_again {calls} {h = holder} {js} {s'} before now found create copy fresh apart
          there) =
      let k = Overlaps-Keeps c s h before in
      record {
        holds = leaves_again-Holds c now calls holder js s' k found fresh create copy apart there;
        begun = k.begun;
        holding = tt;
      }
  Overlaps-Keeps c s h (breaks {calls} {h = holder} {js} {s'} before now found failure fresh) =
      let k = Overlaps-Keeps c s h before in
      record {
        holds = breaks-Holds c now calls holder js s' k found fresh failure;
        begun = k.begun;
        holding = tt;
      }

  -- A new session of `n` chunks is open, for an ID that is not empty. From then on only calls for its
  -- chunks step, all calls for an index with the same bytes: calls begin at any time, each with the
  -- session as it was then; at most one at a time is between the mutex and letting go of it, within
  -- which others may begin; each records its chunk, for the first time or again, or fails; looking up
  -- the session or the mutex is one step, and all calls get the same mutex; CreateTemp makes new files away
  -- from the target. Once a call for each chunk has recorded it, completing the session in a working
  -- system answers with the completed file and closes the session, and the target holds the chunks
  -- joined in the order of their indexes.
  pub Overlaps-upload_file_complete :
      (storage : Str) (now : ℕ) (w : CompleteWorld) (u : UserSessionInfo) (c : ChunkInfo)
      (s s' : Server gw.Store) (calls : List (ℕ × ChunkInfo)) (holder : Option Holder) (js : List ℕ)
      → is_empty id ≡ false
      → find id s.upload_sessions ≡ some c
      → c.total_chunks ≡ pos n
      → c.chunk_indexes ≡ []
      → target ≡ stored_path gw join_path storage now w c
      → Overlaps gw join_path temp target id n b s calls holder js s'
      → length js ≡ n
      → ((j : ℕ) → j < n → In j js)
      → IsCompleting gw join_path temp target id n b w
      → IsWhole gw join_path temp target id n b storage now w u c s'
  Overlaps-upload_file_complete storage now w u c s s' calls holder js filled e t empty aim overlaps
        len every k =
      Holds-upload_file_complete gw join_path temp target id n b storage now w u c s' js
        (Overlaps-Keeps c s (fresh-Holds gw join_path temp target id n b c s e t empty)
          overlaps).holds
        filled aim len every k
