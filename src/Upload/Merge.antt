-- ===== src/Upload/Merge.antt =====
-- The merge of the chunks, where the operating system does what it is asked.
use local_drive.Base.{
  ℕ, zero, suc, ◌+◌, ◌<◌, ◌≡◌, ◌≢◌, refl, sym, ap, ◌∙◌, Bool, false, none, some, List, [], ◌∷◌,
  ◌++◌, append-nil, append_assoc, Str, Result, ok, err, find, insert, find-insert_self,
  find-insert_ne, find-remove, find-remove_ne, find-remove_self, Str_eq, All, arith,
}
use local_drive.Base.Int.{ℤ, pos, ℤ_eq}
use local_drive.Upload.{Disk, append_to, remove_file, remove_files}
use local_drive.Upload.Complete.{
  CompleteWorld, MergeError, merge_chunk, merge_at, next_round, merge,
}

-- The bytes of the chunks from `i` on, as many as are left, in the order of their indexes.
abbrev pub joined : (ℕ → List ℕ) → ℕ → ℕ → List ℕ
joined b i zero = []
joined b i (suc left) = b i ++ joined b (i + 1) left

abbrev pub paths_from : (ℕ → Str) → ℕ → ℕ → List Str
paths_from p i zero = []
paths_from p i (suc left) = p i ∷ paths_from p (i + 1) left

-- Chunk `j` is recorded at a path other than the stored file's, its file holds the bytes `b j`, and
-- it can be opened and copied.
pub record IsReady (w : CompleteWorld) (indexes : List (ℤ × Str)) (stored : Str)
    (files : List (Str × List ℕ)) (p : ℕ → Str) (b : ℕ → List ℕ) (j : ℕ) : Type 0 where
  pub recorded : find (pos j) indexes ≡ some (p j)
  pub apart : stored ≢ p j
  pub held : find (p j) files ≡ some (b j)
  pub opens : w.open_fails j ≡ false
  pub copies : w.copy_fails j ≡ none

-- Two disks differ at one path at most.
abbrev pub SameBut : Str → List (Str × List ℕ) → List (Str × List ℕ) → Type 0
SameBut stored files files' = (q : Str) → stored ≢ q → find q files' ≡ find q files

append_to_lem :
    (stored : Str) (acc bytes : List ℕ) (d : Disk)
    → find stored d.files ≡ some acc
    → append_to stored bytes d ≡ record d { files = insert stored (acc ++ bytes) d.files }
append_to_lem stored acc bytes d e =
    ap
      (λ o. record d {
        files = insert stored (elim o [ none ↦ [] | some held ↦ held ] ++ bytes) d.files;
      })
      e

merge_chunk-ok :
    (w : CompleteWorld) (stored : Str) (i : ℕ) (bytes : List ℕ) (d : Disk)
    → w.copy_fails i ≡ none
    → merge_chunk w stored i bytes d ≡ (ok tt, append_to stored bytes d)
unfolding merge_chunk
merge_chunk-ok w stored i bytes d e = rw (e, merge_chunk) refl

next_round-ok :
    (path : Str) (paths : List Str) (d d' : Disk)
    (rest : Disk → Result MergeError (List Str) × Disk)
    → rest d ≡ (ok paths, d')
    → next_round (ok path, d) rest ≡ (ok (path ∷ paths), d')
unfolding next_round
next_round-ok path paths d d' rest e =
    ap (λ o. (elim o.0 [ ok more ↦ (ok (path ∷ more), o.1) | err error ↦ (err error, o.1) ])) e

module _ (w : CompleteWorld) (indexes : List (ℤ × Str)) (stored : Str) (files : List (Str × List ℕ))
    (p : ℕ → Str) (b : ℕ → List ℕ) where
  merge_at-ok :
      (i : ℕ) (acc : List ℕ) (d : Disk)
      → IsReady w indexes stored files p b i
      → SameBut stored files d.files
      → find stored d.files ≡ some acc
      → merge_at w indexes stored i d
        ≡ (ok (p i), record d { files = insert stored (acc ++ b i) d.files })
  unfolding merge_at
  merge_at-ok i acc d r same e =
      rw (r.recorded, merge_at)
        (rw (r.opens, merge_at)
          (rw (same (p i) r.apart ∙ r.held, merge_at)
            (ap (λ o. (elim o.0 [ ok _ ↦ (ok (p i), o.1) | err error ↦ (err error, o.1) ]))
              (merge_chunk-ok w stored i (b i) d r.copies
                ∙ ap (λ d'. (ok tt, d')) (append_to_lem stored acc (b i) d e)))))

  -- The rounds that are left append the chunks that are left.
  pub merge-ok :
      (left i n : ℕ) (acc : List ℕ) (d : Disk)
      → i + left ≡ n
      → ((j : ℕ) → j < n → IsReady w indexes stored files p b j)
      → SameBut stored files d.files
      → find stored d.files ≡ some acc
      → (d' : Disk) × (merge w indexes stored left i d ≡ (ok (paths_from p i left), d'))
        × SameBut stored files d'.files
        × (find stored d'.files ≡ some (acc ++ joined b i left))
  unfolding merge
  merge-ok zero i n acc d h ready same e = (d, refl, same, e ∙ ap some (sym (append-nil acc)))
  merge-ok (suc left) i n acc d h ready same e =
      let next = record d { files = insert stored (acc ++ b i) d.files } in
      let (d', m, same', e') =
        merge-ok left (i + 1) n (acc ++ b i) next (omega arith) ready
          (λ q ne. find-insert_ne stored q (acc ++ b i) d.files ne ∙ same q ne)
          (find-insert_self stored (acc ++ b i) d.files) in
      (
        d',
        ap (λ o. next_round o (merge w indexes stored left (i + 1)))
              (merge_at-ok i acc d (ready i (omega arith)) same e)
            ∙ next_round-ok (p i) (paths_from p (i + 1) left) next d'
                (merge w indexes stored left (i + 1)) m,
        same',
        e' ∙ ap some (append_assoc acc (b i) (joined b (i + 1) left)),
      )

remove_file-ne :
    (refused : Str → Bool) (path q : Str) (d : Disk)
    → path ≢ q
    → find q (remove_file refused path d).files ≡ find q d.files
unfolding remove_file
remove_file-ne refused path q d h = ground (arith, refused path, find-remove_ne path q d.files h)

-- A file whose path is not removed stays.
pub remove_files-kept :
    (refused : Str → Bool) (q : Str) (paths : List Str) (d : Disk)
    → All (λ path. path ≢ q) paths
    → find q (remove_files refused paths d).files ≡ find q d.files
unfolding remove_files
remove_files-kept refused q [] d h = refl
remove_files-kept refused q (path ∷ paths) d (h, hs) =
    remove_files-kept refused q paths (remove_file refused path d) hs
    ∙ remove_file-ne refused path q d h

remove_file-none :
    (refused : Str → Bool) (path q : Str) (d : Disk)
    → find q d.files ≡ none
    → find q (remove_file refused path d).files ≡ none
unfolding remove_file
remove_file-none refused path q d h = ground (arith, refused path, find-remove path q d.files)

pub remove_files-none :
    (refused : Str → Bool) (q : Str) (paths : List Str) (d : Disk)
    → find q d.files ≡ none
    → find q (remove_files refused paths d).files ≡ none
unfolding remove_files
remove_files-none refused q [] d h = h
remove_files-none refused q (path ∷ paths) d h =
    remove_files-none refused q paths (remove_file refused path d)
      (remove_file-none refused path q d h)

-- A file is gone once it was removed.
pub remove_file-gone :
    (refused : Str → Bool) (path : Str) (d : Disk)
    → refused path ≡ false
    → find path (remove_file refused path d).files ≡ none
unfolding remove_file
remove_file-gone refused path d h = rw h (find-remove_self path d.files)
