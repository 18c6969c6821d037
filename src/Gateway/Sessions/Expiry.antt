-- ===== src/Gateway/Sessions/Expiry.antt =====
-- When a session is valid.
use local_drive.Base.{
  ℕ, ◌≤◌, ◌≡◌, ◌↔◌, refl, sym, ap, subst, true, false, Option, none, some, List, [], ◌∷◌, Str,
  Result, ok, err, Str-eq_iff, arith,
}
use local_drive.Base.Spaces.{trim_space, is_empty}
use local_drive.Sql.Placeholder.{Arg, str}
use local_drive.Api.{UserSessionInfo}
use local_drive.Database.{Database, SqlError}
use local_drive.Gateway.Sessions.{
  session_query, scan_sessions, validate_id, tested, answered, validate_session_and_get_user,
}

-- The first row is of the session, and its time is not past.
abbrev IsFirst : ℕ → Str → UserSessionInfo → Option (List UserSessionInfo) → Type 0
IsFirst now id info none = ⊥
IsFirst now id info (some []) = ⊥
IsFirst now id info (some (first ∷ _)) =
    (first ≡ info) × (first.session_id ≡ id) × (now ≤ first.expire_on)

tested_iff :
    (now : ℕ) (id : Str) (info : UserSessionInfo) (o : Option (List UserSessionInfo))
    → (tested now id o ≡ ok (true, some info)) ↔ IsFirst now id info o
unfolding tested
tested_iff now id info none = ground arith
tested_iff now id info (some []) = ground arith
tested_iff now id info (some (first ∷ _)) = ground (arith, Str-eq_iff first.session_id id)

module _ (db : Database) where
  open db use {Store, query}

  -- The rows that the query of a session gives, where there are any to read.
  abbrev pub Gives : Store → Str → List UserSessionInfo → Type 0
  Gives s id infos =
      (rows : List (List Arg)) × (query s session_query (str id ∷ []) ≡ ok rows)
      × (scan_sessions rows ≡ some infos)

  answered_iff :
      (now : ℕ) (id : Str) (info : UserSessionInfo) (r : Result SqlError (List (List Arg)))
      → (answered now id r ≡ ok (true, some info))
        ↔ ((rows : List (List Arg)) × (r ≡ ok rows) × IsFirst now id info (scan_sessions rows))
  unfolding answered
  answered_iff now id info (err e) = ((λ h. cc), λ h. let (rows, e, first) = h in cc)
  answered_iff now id info (ok rows) = (
    (λ h. (rows, refl, (tested_iff now id info (scan_sessions rows)).0 h)),
    λ h.
        let (rows', e, first) = h in
        let same : rows ≡ rows' = cc in
        (tested_iff now id info (scan_sessions rows)).1
          (subst (λ (r : List (List Arg)). IsFirst now id info (scan_sessions r)) (sym same) first),
  )

  IsFirst-some :
      (now : ℕ) (id : Str) (info : UserSessionInfo) (o : Option (List UserSessionInfo))
      → IsFirst now id info o ↔ (
          (rest : List UserSessionInfo) × (o ≡ some (info ∷ rest))
          × (info.session_id ≡ id)
          × (now ≤ info.expire_on))
  IsFirst-some now id info none = ((λ h. absurd h), λ h. let (rest, e, same, later) = h in cc)
  IsFirst-some now id info (some []) = ((λ h. absurd h), λ h. let (rest, e, same, later) = h in cc)
  IsFirst-some now id info (some (first ∷ rest)) = (
    (λ h.
        let (e, same, later) = h in
        (
          rest,
          ap (λ i. some (i ∷ rest)) e,
          subst (λ (i : UserSessionInfo). i.session_id ≡ id) e same,
          subst (λ (i : UserSessionInfo). now ≤ i.expire_on) e later,
        )),
    λ h.
        let (rest', e, same, later) = h in
        let found : first ≡ info = cc in
        (
          found,
          subst (λ (i : UserSessionInfo). i.session_id ≡ id) (sym found) same,
          subst (λ (i : UserSessionInfo). now ≤ i.expire_on) (sym found) later,
        ),
  )

  validate-steps :
      (now : ℕ) (s : Store) (id : Str) (info : UserSessionInfo)
      → (validate_session_and_get_user db now s id ≡ ok (true, some info)) ↔ (
          (is_empty (trim_space id) ≡ false)
          × (answered now id (query s session_query (str id ∷ [])) ≡ ok (true, some info)))
  unfolding validate_session_and_get_user validate_id
  validate-steps now s id info = ground arith

  -- A session ID is valid, and for a user, exactly when it is not blank, the query of it gives rows
  -- that can be read, the first row is of that ID and the user, and its time is not past.
  pub validate_session_iff :
      (now : ℕ) (s : Store) (id : Str) (info : UserSessionInfo)
      → (validate_session_and_get_user db now s id ≡ ok (true, some info)) ↔ (
          (is_empty (trim_space id) ≡ false)
          × ((rest : List UserSessionInfo) × Gives s id (info ∷ rest))
          × (info.session_id ≡ id)
          × (now ≤ info.expire_on))
  validate_session_iff now s id info = (
    (λ h.
        let (filled, a) = (validate-steps now s id info).0 h in
        let (rows, e, first) =
          (answered_iff now id info (query s session_query (str id ∷ []))).0 a in
        let (rest, scanned, same, later) =
          (IsFirst-some now id info (scan_sessions rows)).0 first in
        (filled, (rest, (rows, e, scanned)), same, later)),
    λ h.
        let (filled, (rest, (rows, e, scanned)), same, later) = h in
        (validate-steps now s id info).1 (
          filled,
          (answered_iff now id info (query s session_query (str id ∷ []))).1 (
            rows,
            e,
            (IsFirst-some now id info (scan_sessions rows)).1 (rest, scanned, same, later),
          ),
        ),
  )
