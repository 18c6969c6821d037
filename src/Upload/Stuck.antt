-- ===== src/Upload/Stuck.antt =====
-- A session that has as many chunks as its number, but not every index below it: UploadFileChunk
-- takes a negative index, and counts it.
pub mod Attempts
use local_drive.Base.{
  ℕ, zero, suc, ◌+◌, ◌≤◌, ◌<◌, ◌≡◌, ◌≢◌, refl, sym, ap, subst, ◌∙◌, not, Bool, true, false, Option,
  none, some, List, [], ◌∷◌, Str, Result, ok, err, find, length, Str_eq, arith, if◌then◌else◌,
  nat_eq, nat_eq_iff, Bool-cases, Option-cases, if_cases, inl, inr,
}
use local_drive.Base.Int.{ℤ, pos, z_eq, z_eq_iff, z_gt, z_incr, ℤ_eq}
use local_drive.Base.Decimal.{atoi}
use local_drive.Base.Spaces.{is_empty}
use local_drive.Api.{UserSessionInfo, Reply, success, failure}
use local_drive.Upload.{ChunkInfo, FileGateway, Server, Disk}
use local_drive.Upload.Chunk.{ChunkWorld, guarded, indexed, upload_file_chunk}
use local_drive.Upload.Complete.{
  CompleteWorld, MergeError, missing_chunk, disk_error, merge, merge_at, next_round, rounds, merged,
  complete, complete_checked, upload_file_complete,
}

abbrev pub Fails : {A : Type 0} → Result MergeError A × Disk → Type 0
Fails {A} r = (error : MergeError) × ((d : Disk) × (r ≡ (err error, d)))

next_round-Fails :
    (r : Result MergeError Str × Disk) (rest : Disk → Result MergeError (List Str) × Disk)
    → ((d : Disk) → Fails (rest d))
    → Fails (next_round r rest)
unfolding next_round
next_round-Fails (err e, d) rest h = (e, (d, refl))
next_round-Fails (ok path, d) rest h =
    let (e, (d', k)) = h d in
    (
      e,
      (
        d',
        ap (λ o. (elim o.0 [ ok paths ↦ (ok (path ∷ paths), o.1) | err error ↦ (err error, o.1) ]))
            k,
      ),
    )

merge_at-missing :
    (w : CompleteWorld) (indexes : List (ℤ × Str)) (stored : Str) (i : ℕ) (d : Disk)
    → find (pos i) indexes ≡ none
    → merge_at w indexes stored i d ≡ (err missing_chunk, d)
unfolding merge_at
merge_at-missing w indexes stored i d e = rw (e, merge_at) refl

-- The rounds do not get past an index that is missing.
pub merge-Fails :
    (w : CompleteWorld) (indexes : List (ℤ × Str)) (stored : Str) (j left i : ℕ) (d : Disk)
    → find (pos j) indexes ≡ none
    → i ≤ j
    → j < i + left
    → Fails (merge w indexes stored left i d)
unfolding merge next_round
merge-Fails w indexes stored j zero i d e h k = absurd (omega arith)
merge-Fails w indexes stored j (suc left) i d e h k = elim (Bool-cases (nat_eq i j)) [
  | inl here ↦
      let at : find (pos i) indexes ≡ none =
        subst (λ n. find (pos n) indexes ≡ none) (sym ((nat_eq_iff i j).0 here)) e in
      (
        missing_chunk,
        (
          d,
          ap (λ r. next_round r (merge w indexes stored left (i + 1)))
              (merge_at-missing w indexes stored i d at),
        ),
      )
  | inr later ↦
      let before : i < j = ground (arith, nat_eq_iff i j) in
      next_round-Fails (merge_at w indexes stored i d) (merge w indexes stored left (i + 1))
        (λ d'. merge-Fails w indexes stored j left (i + 1) d' e (omega arith) (omega arith))
]

module _ (gw : FileGateway) (join_path : List Str → Str) (id : Str) (c : ChunkInfo)
    (s : Server gw.Store) where
  guarded-full :
      (temp : Str) (w : ChunkWorld) (index : ℤ) (body : List ℕ)
      → c.total_chunks ≡ pos (length c.chunk_indexes)
      → (guarded gw join_path temp w id c index body s).1 ≡ s
  unfolding guarded
  guarded-full temp w index body t =
      if_cases (λ (r : Reply × Server gw.Store). r.1 ≡ s) (z_gt (z_incr index) c.total_chunks) _ _
        (λ _. refl)
        (λ _.
          if_cases (λ (r : Reply × Server gw.Store). r.1 ≡ s)
            (z_eq c.total_chunks (pos (length c.chunk_indexes))) _ _ (λ _. refl)
            (λ differs. cc (differs, (z_eq_iff c.total_chunks (pos (length c.chunk_indexes))).1 t)))

  indexed-full :
      (temp : Str) (w : ChunkWorld) (value : Str) (body : List ℕ)
      → c.total_chunks ≡ pos (length c.chunk_indexes)
      → (indexed gw join_path temp w id c value body s).1 ≡ s
  unfolding indexed
  indexed-full temp w value body t = elim (Option-cases (atoi value)) [
    | inl e ↦ rw (e, indexed) refl
    | inr (index, e) ↦ rw (e, indexed) (guarded-full temp w index body t)
  ]

  pub upload_file_chunk-full :
      (temp : Str) (w : ChunkWorld) (user : Option UserSessionInfo) (value : Str) (body : List ℕ)
      → find id s.upload_sessions ≡ some c
      → c.total_chunks ≡ pos (length c.chunk_indexes)
      → (upload_file_chunk gw join_path temp w user id value body s).1 ≡ s
  unfolding upload_file_chunk
  upload_file_chunk-full temp w none value body e t = refl
  upload_file_chunk-full temp w (some u) value body e t =
      rw (e, upload_file_chunk) (indexed-full temp w value body t)

  module _ (storage : Str) (now : ℕ) (w : CompleteWorld) where
    -- The session is still there, and the reply is an error.
    abbrev pub Refused : Reply × Server gw.Store → Type 0
    Refused (failure code message reason, s') = find id s'.upload_sessions ≡ some c
    Refused _ = ⊥

    merged-Refused :
        (stored : Str) (r : Result MergeError (List Str) × Disk)
        → Fails r
        → find id s.upload_sessions ≡ some c
        → Refused (merged gw join_path storage now w id c stored s r)
    unfolding merged
    merged-Refused stored r (missing_chunk, (d, h)) e =
        subst (λ r. Refused (merged gw join_path storage now w id c stored s r)) (sym h) e
    merged-Refused stored r (disk_error, (d, h)) e =
        subst (λ r. Refused (merged gw join_path storage now w id c stored s r)) (sym h) e

    complete-Refused :
        (j : ℕ)
        → c.total_chunks ≡ pos (length c.chunk_indexes)
        → j < length c.chunk_indexes
        → find (pos j) c.chunk_indexes ≡ none
        → find id s.upload_sessions ≡ some c
        → Refused (complete gw join_path storage now w id c s)
    unfolding complete
    complete-Refused j t b none_at e =
        if_cases Refused w.mkdir_fails _ _ (λ _. e)
          (λ _.
            if_cases Refused w.create_fails _ _ (λ _. e)
              (λ _.
                merged-Refused _ _
                  (merge-Fails w c.chunk_indexes _ j (rounds c.total_chunks) 0 _ none_at
                    (omega arith) (subst (λ z. j < 0 + rounds z) (sym t) (omega (arith, b))))
                  e))

    pub upload_file_complete-Refused :
        (user : Option UserSessionInfo) (j : ℕ)
        → c.total_chunks ≡ pos (length c.chunk_indexes)
        → j < length c.chunk_indexes
        → find (pos j) c.chunk_indexes ≡ none
        → find id s.upload_sessions ≡ some c
        → Refused (upload_file_complete gw join_path storage now w user id s)
    unfolding upload_file_complete
    upload_file_complete-Refused none j t b none_at e = e
    upload_file_complete-Refused (some u) j t b none_at e =
        if_cases Refused (is_empty id) _ _ (λ _. e)
          (λ _.
            rw (e, upload_file_complete)
              (if_cases Refused (not (z_eq c.total_chunks (pos (length c.chunk_indexes)))) _ _
                (λ _. e) (λ _. complete-Refused j t b none_at e)))
