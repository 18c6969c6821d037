-- ===== src/Gateway/Sessions/Tests.antt =====
-- Witnesses of the sessions, on a database whose content is the answer to the query.
use local_drive.Base.{
  ◌+◌, ◌*◌, ◌≤◌, ◌≡◌, ◌↔◌, refl, true, false, some, none, List, [], ◌∷◌, Str, text, ok, leb,
  if◌then◌else◌,
}
use local_drive.Base.Spaces.{trim_space, is_empty}
use local_drive.Sql.Placeholder.{Arg, str, time}
use local_drive.Api.{UserSessionInfo}
use local_drive.Database.{Database, exec_query}
use local_drive.Gateway.Files.{day}
use local_drive.Gateway.Sessions.{
  Session, expire_time_days, upserted, upsert_query, upsert_session, validate_session_and_get_user,
}
use local_drive.Gateway.Sessions.Expiry.{Gives, validate_session_iff}
use local_drive.Gateway.Sessions.Renewal.{upsert_session-validate_session}

abbrev answering : Database
answering = record {
  Store = List (List Arg);
  query = λ s query args. ok s;
  begin_ok = λ s. true;
  execute = λ s query args. ok (1, s);
  commit_ok = λ s. true;
  commit_lost = λ s. false;
}

abbrev id : Str
id = text "6f1c"

abbrev ada : UserSessionInfo
ada = record {
  session_id = id;
  expire_on = 100 + expire_time_days * day;
  username = text "ada";
  account_id = text "acc";
}

abbrev content : List (List Arg)
content = (str id ∷ time ada.expire_on ∷ str ada.username ∷ str ada.account_id ∷ []) ∷ []

validate_session_iff_example :
    (validate_session_and_get_user answering 200 content id ≡ ok (true, some ada)) ↔ (
      (is_empty (trim_space id) ≡ false)
      × ((rest : List UserSessionInfo) × Gives answering content id (ada ∷ rest))
      × (ada.session_id ≡ id)
      × (200 ≤ ada.expire_on))
validate_session_iff_example = validate_session_iff answering 200 content id ada

abbrev session : Session
session = record {
  session_id = id;
  account_id = text "acc";
  created_on = 100;
  expire_on = 100 + expire_time_days * day;
}

upsert_session_test : upsert_session answering id 100 content (text "acc") ≡ (ok session, content)
unfolding upsert_session upserted exec_query upsert_query
upsert_session_test = refl

id_test : is_empty (trim_space id) ≡ false
unfolding trim_space text
id_test = refl

upsert_session-validate_session_example : validate_session_and_get_user answering 200 content id ≡ (
    if leb 200 (100 + expire_time_days * day)
    then ok (
      true,
      some (record {
        session_id = id;
        expire_on = 100 + expire_time_days * day;
        username = text "ada";
        account_id = text "acc";
      }),
    )
    else ok (false, none))
upsert_session-validate_session_example =
    upsert_session-validate_session answering id 100 200 content content (text "acc") (text "ada")
      session id_test upsert_session_test refl
