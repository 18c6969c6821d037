-- ===== src/Gateway/Sessions/Renewal.antt =====
-- A session that was written, and then checked.
use local_drive.Base.{
  ℕ, ◌+◌, ◌*◌, ◌≡◌, refl, sym, ap, ◌∙◌, true, false, none, some, [], ◌∷◌, Str, Result, ok, err, leb,
  Str-eq_iff, if◌then◌else◌, arith,
}
use local_drive.Base.Spaces.{trim_space, is_empty}
use local_drive.Sql.Placeholder.{str, time}
use local_drive.Api.{UserSessionInfo}
use local_drive.Database.Rows.{select_rows}
use local_drive.Database.{Database, GatewayError, exec_query}
use local_drive.Gateway.Files.{day}
use local_drive.Gateway.Sessions.{
  Session, expire_time_days, session_query, scan_session, validate_id, tested, answered,
  validate_session_and_get_user, upserted, upsert_session, upsert_query,
}

module _ (db : Database) where
  open db use {Store, query}

  upserted-ok :
      (ses ses' : Session) (r : Result GatewayError ℕ × Store) (s' : Store)
      → upserted db ses r ≡ (ok ses', s')
      → ses ≡ ses'
  unfolding upserted
  upserted-ok ses ses' (err e, s) s' h = cc
  upserted-ok ses ses' (ok n, s) s' h = cc

  pub upsert_session-ok :
      (id : Str) (now : ℕ) (s s' : Store) (account : Str) (ses : Session)
      → upsert_session db id now s account ≡ (ok ses, s')
      → (ses.session_id ≡ id)
        × (ses.account_id ≡ account)
        × (ses.expire_on ≡ now + expire_time_days * day)
  unfolding upsert_session upsert_query
  upsert_session-ok id now s s' account ses h =
      let same = upserted-ok _ ses (exec_query db s _ _) s' h in
      (
        ap (λ (x : Session). x.session_id) (sym same),
        ap (λ (x : Session). x.account_id) (sym same),
        ap (λ (x : Session). x.expire_on) (sym same),
      )

  tested-own :
      (later : ℕ) (id : Str) (info : UserSessionInfo)
      → info.session_id ≡ id
      → tested later id (some (info ∷ []))
        ≡ (if leb later info.expire_on then ok (true, some info) else ok (false, none))
  unfolding tested
  tested-own later id info same = ground (arith, Str-eq_iff info.session_id id)

  answered-row :
      (later : ℕ) (id : Str) (expire : ℕ) (user account : Str)
      → answered later id (ok ((str id ∷ time expire ∷ str user ∷ str account ∷ []) ∷ [])) ≡ (
          if leb later expire
          then ok (
            true,
            some (record {
              session_id = id;
              expire_on = expire;
              username = user;
              account_id = account;
            }),
          )
          else ok (false, none))
  unfolding answered select_rows scan_session
  answered-row later id expire user account =
      tested-own later id
        (record { session_id = id; expire_on = expire; username = user; account_id = account }) refl

  validate-filled :
      (now : ℕ) (s : Store) (id : Str)
      → is_empty (trim_space id) ≡ false
      → validate_session_and_get_user db now s id
        ≡ answered now id (query s session_query (str id ∷ []))
  unfolding validate_session_and_get_user validate_id
  validate-filled now s id h = rw h refl

  -- A session is written under an ID that is not blank, and the database then answers the query for
  -- the ID with the session's row alone: the ID is valid, for the account of the session, up to 14
  -- days after the write, and not valid after that.
  pub upsert_session-validate_session :
      (id : Str) (now later : ℕ) (s s' : Store) (account user : Str) (ses : Session)
      → is_empty (trim_space id) ≡ false
      → upsert_session db id now s account ≡ (ok ses, s')
      → query s' session_query (str id ∷ [])
        ≡ ok ((str ses.session_id ∷ time ses.expire_on ∷ str user ∷ str ses.account_id ∷ []) ∷ [])
      → validate_session_and_get_user db later s' id ≡ (
          if leb later (now + expire_time_days * day)
          then ok (
            true,
            some (record {
              session_id = id;
              expire_on = now + expire_time_days * day;
              username = user;
              account_id = account;
            }),
          )
          else ok (false, none))
  upsert_session-validate_session id now later s s' account user ses filled h found =
      let (same, owner, expire) = upsert_session-ok id now s s' account ses h in
      validate-filled later s' id filled
      ∙ ap (answered later id) found
      ∙ ap
          (λ (x : Str × ℕ × Str).
            answered later id (ok ((str x.0 ∷ time x.1 ∷ str user ∷ str x.2 ∷ []) ∷ [])))
          (ap (λ i. (i, ses.expire_on, ses.account_id)) same
            ∙ ap (λ t. (id, t, ses.account_id)) expire
            ∙ ap (λ a. (id, now + expire_time_days * day, a)) owner)
      ∙ answered-row later id (now + expire_time_days * day) user account
