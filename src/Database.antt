-- ===== src/Database.antt =====
-- The MySQL server as database/sql and its driver show it, a parameter of the gateways; the errors of
-- the gateways (src/db_gateway/gw_errors.go, file_gateway.go); execQuery of
-- src/db_gateway/db_gateway.go.
pub mod Rows
pub mod Utils
use local_drive.Base.{
  ℕ, ◌≡◌, refl, ◌⊎◌, inl, inr, Bool, Bool-cases, true, false, List, Str, Result, ok, err, nat_eq,
  if◌then◌else◌, arith,
}
use local_drive.Sql.Placeholder.{Arg}
use local_drive.Users.Credentials.{UsernameError, PasswordError}

-- *mysql.MySQLError with its number, or any other error.
pub data SqlError : Type 0 where
  mysql_error : ℕ → SqlError
  other_error : SqlError

-- `execute` is a statement within a transaction: the rows that it affected and the content that a
-- commit makes visible.
pub record Database : Type 1 where
  pub Store : Type 0
  pub query : Store → Str → List Arg → Result SqlError (List (List Arg))
  pub begin_ok : Store → Bool
  pub execute : Store → Str → List Arg → Result SqlError (ℕ × Store)
  pub commit_ok : Store → Bool
  -- whether a commit that reports an error took effect, as it may when the connection is lost
  pub commit_lost : Store → Bool

pub data GatewayError : Type 0 where
  -- SqlErr, ServerErr, FileDoesNotExistErr, NoFileArgsErr, NoAffectedRowsErr
  sql server file_does_not_exist no_file_args no_affected_rows : GatewayError
  -- an error of the driver, handed on
  driver : SqlError → GatewayError
  -- errors.New and fmt.Errorf with a text of their own
  start_transaction commit_transaction file_retrieval query_failed hashing parsing : GatewayError
  username : UsernameError → GatewayError
  password : PasswordError → GatewayError

-- IsDuplicateSqlError
unfoldable pub is_duplicate_sql_error : GatewayError → Bool
is_duplicate_sql_error (driver (mysql_error number)) = nat_eq number 1062
is_duplicate_sql_error _ = false

-- IsUsernameError
unfoldable pub is_username_error : GatewayError → Bool
is_username_error (username _) = true
is_username_error _ = false

-- IsPasswordError
unfoldable pub is_password_error : GatewayError → Bool
is_password_error (password _) = true
is_password_error _ = false

module _ (db : Database) where
  open db use {Store, begin_ok, execute, commit_ok, commit_lost}

  committed : Store → Result SqlError (ℕ × Store) → Result GatewayError ℕ × Store
  committed s (err e) = (err (driver e), s)
  committed s (ok (n, s')) =
      if commit_ok s'
      then (ok n, s')
      else (err commit_transaction, if commit_lost s' then s' else s)

  -- Both failures after Begin roll the transaction back, which does nothing once a commit took effect.
  unfoldable pub exec_query : Store → Str → List Arg → Result GatewayError ℕ × Store
  unfolding committed
  exec_query s query args =
      if begin_ok s then committed s (execute s query args) else (err start_transaction, s)

-- The content of a statement whose commit took effect and yet reported an error.
abbrev pub IsLost : (db : Database) → db.Store → db.Store → Type 0
IsLost db s s' =
    (q : Str) × (args : List Arg) × (n : ℕ) × (db.execute s q args ≡ ok (n, s'))
    × (db.commit_ok s' ≡ false)
    × (db.commit_lost s' ≡ true)

-- An outcome that changed the content only if it is no error, or the error of a commit that took
-- effect.
abbrev pub Atomic :
    {A : Type 0} → (db : Database) → (s : db.Store) → Result GatewayError A × db.Store → Type 0
Atomic db s (ok a, s') = Unit
Atomic db s (err e, s') = (s' ≡ s) ⊎ IsLost db s s'

committed-Atomic :
    (db : Database) (s : db.Store) (q : Str) (args : List Arg) (r : Result SqlError (ℕ × db.Store))
    → db.execute s q args ≡ r
    → Atomic db s (committed db s r)
unfolding committed
committed-Atomic db s q args (err e) h = inl refl
committed-Atomic db s q args (ok (n, s')) h = elim (Bool-cases (db.commit_ok s')) [
  | inl good ↦ rw (good, committed) tt
  | inr bad ↦ elim (Bool-cases (db.commit_lost s')) [
    | inl lost ↦ rw (bad, committed) (rw lost (inr (q, args, n, h, bad, lost)))
    | inr kept ↦ rw (bad, committed) (rw kept (inl refl))
  ]
]

-- A statement that fails, or whose transaction cannot start or commit, changes nothing, unless the
-- commit took effect.
pub exec_query-Atomic :
    (db : Database) (s : db.Store) (query : Str) (args : List Arg)
    → Atomic db s (exec_query db s query args)
unfolding exec_query
exec_query-Atomic db s query args = elim (Bool-cases (db.begin_ok s)) [
  | inl e ↦ rw (e, exec_query) (committed-Atomic db s query args (db.execute s query args) refl)
  | inr e ↦ rw (e, exec_query) (inl refl)
]
