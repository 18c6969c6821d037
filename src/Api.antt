-- ===== src/Api.antt =====
-- What the handlers of src/api answer: reasons, replies, the session's user
-- (src/api/errors.go, src/api/response_types.go, src/api/handler_utils.go).
use local_drive.Base.{ℕ, Bool, List, [], ◌∷◌, ◌++◌, Str, text}
use local_drive.Base.Int.{ℤ, pos, negsuc}
use local_drive.Files.{FileResponse}
use local_drive.Gateway.Files.Listing.{BreadcrumbFile}
use local_drive.Gateway.Users.Accounts.{UserAccountNoPassword}

-- UserSessionInfo of src/db_gateway/session_gateway.go; the middleware puts it into the context.
pub record UserSessionInfo : Type 0 where
  pub session_id : Str
  pub expire_on : ℕ
  pub username : Str
  pub account_id : Str

pub data ReasonCode : Type 0 where
  internal_error bad_request_data duplicate_data file_does_not_exist invalid_header : ReasonCode
  user_already_exists bad_username bad_password unauthorized not_found : ReasonCode

pub data Output : Type 0 where
  upload_id : Str → Output
  flag : Bool → Output
  file : FileResponse → Output
  files : List FileResponse → Output
  folders : List BreadcrumbFile → Output
  account : UserAccountNoPassword → Output
  nothing : Output

-- The response of a handler: a success with its output, or an error with its code, message and
-- reason. A message is given before its first letter is made a capital. A few handlers put an error
-- beside the output of a success. A download is its headers and bytes, and whether an internal error
-- follows the bytes. A panic ends the connection.
pub data Reply : Type 0 where
  success : Output → Reply
  failure : ℕ → Str → ReasonCode → Reply
  success_with_error : Output → ℕ → Str → ReasonCode → Reply
  stream : List (Str × Str) → List ℕ → Bool → Reply
  panic : Reply

-- HttpWriteUnauthorizedError
abbrev pub unauthorized_error : Reply
unauthorized_error = failure 401 (text "Unauthorized access") unauthorized

-- HttpWriteInternalError
abbrev pub internal_server_error : Reply
internal_server_error =
    failure 500 (text "An unexpected internal error has occurred") internal_error

-- HttpWriteBadDataError
abbrev pub bad_data_error : Reply
bad_data_error = failure 400 (text "Bad request data") bad_request_data

-- HttpWriteCustomBadDataError
abbrev pub custom_bad_data_error : Str → ReasonCode → Reply
custom_bad_data_error message reason = failure 400 message reason

-- The cookie of the session that a response sets: its value and its MaxAge in seconds.
pub record Cookie : Type 0 where
  pub value : Str
  pub max_age : ℤ

-- What was written to a ResponseWriter, the first before the next.
pub record Response : Type 0 where
  pub cookies : List Cookie
  pub replies : List Reply

abbrev pub no_response : Response
no_response = record { cookies = []; replies = [] }

abbrev pub written : Reply → Response → Response
written reply r = record r { replies = r.replies ++ (reply ∷ []) }

-- SetCookieSession
unfoldable pub set_cookie_session : Str → Response → Response
set_cookie_session id r = record r {
  cookies = r.cookies ++ (record { value = id; max_age = pos 3600 } ∷ []);
}

-- ExpireCookieSession
unfoldable pub expire_cookie_session : Response → Response
expire_cookie_session r = record r {
  cookies = r.cookies ++ (record { value = []; max_age = negsuc 0 } ∷ []);
}
