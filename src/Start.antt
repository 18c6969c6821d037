-- ===== src/Start.antt =====
-- The start of the server: main of src/app.go, with src/config/server_config.go and NewConfig of
-- src/db_gateway/db_gateway.go. The operating system, the YAML decoder, godotenv.Load and the opening
-- of a database are parameters. A Go map is a list of its pairs in the order that `range` takes them.
pub mod Variables
pub mod Passwords
mod Tests
use local_drive.Base.{
  Bool, true, false, Option, none, some, List, [], ◌∷◌, Str, text, Result, ok, err, find, Str_eq,
  if◌then◌else◌,
}
use local_drive.Config.{ConfigError, get_config}
use local_drive.Start.Variables.{DotenvLoad, EnvError, LoadsEnv, load_env}

-- DatabaseUser
pub record DatabaseUser : Type 0 where
  pub user : Str

-- DatabaseInfo
pub record DatabaseInfo : Type 0 where
  pub name : Str
  pub address : Str
  pub net_protocol : Str
  pub file_user : DatabaseUser
  pub account_user : DatabaseUser

-- ServerConfig; what it gives to the environment is a record of its own.
pub record ServerConfig : Type 0 where
  pub database : DatabaseInfo
  pub variables : LoadsEnv
  pub storage_path : Str
  pub server_address : Str

abbrev pub env_file_pw_key : Str
env_file_pw_key = text "FILEUSER_PASSWORD"

abbrev pub env_user_pw_key : Str
env_user_pw_key = text "ACCOUNTUSER_PASSWORD"

-- The fields of mysql.Config that NewConfig sets.
pub record MysqlConfig : Type 0 where
  pub user : Str
  pub passwd : Str
  pub net : Str
  pub addr : Str
  pub db_name : Str
  pub allow_native_passwords : Bool
  pub parse_time : Bool

-- NewConfig
unfoldable pub new_config : Str → Str → Str → Str → Str → MysqlConfig
new_config user passwd net addr db_name = record {
  user = user;
  passwd = passwd;
  net = net;
  addr = addr;
  db_name = db_name;
  allow_native_passwords = true;
  parse_time = true;
}

-- DirectoryStore
pub record DirectoryStore : Type 0 where
  pub storage : Str
  pub temp : Str

-- What ends main before the server listens.
pub data StartError : Type 0 where
  no_config : ConfigError → StartError
  unreadable_config malformed_config no_file_database no_user_database : StartError
  environment : EnvError → StartError

-- What the gateways and the server are made of.
pub record Started : Type 0 where
  pub file_config : MysqlConfig
  pub user_config : MysqlConfig
  pub directories : DirectoryStore
  pub address : Str

-- What main is answered by the operating system and the packages: the working directory and its
-- entries, os.ReadFile, yaml.Unmarshal, os.Setenv (whether it takes a pair), godotenv.Load, sql.Open
-- with Ping, and os.TempDir.
pub record World : Type 0 where
  pub to_lower : Str → Str
  pub join_path : List Str → Str
  pub root : Option Str
  pub entries : Option (List Str)
  pub read_file : Str → Option Str
  pub unmarshal : Str → Option ServerConfig
  pub setenv_ok : Str → Str → Bool
  pub dotenv_load : DotenvLoad
  pub opens : MysqlConfig → Bool
  pub temp_dir : Str

-- os.Getenv
unfoldable pub getenv : Str → List (Str × Str) → Str
getenv key env = elim (find key env) [ none ↦ [] | some value ↦ value ]

module _ (w : World) where
  decoded : Option Str → Result StartError ServerConfig
  decoded none = err unreadable_config
  decoded (some b) = elim (w.unmarshal b) [ none ↦ err malformed_config | some c ↦ ok c ]

  -- NewServerConfig
  unfoldable pub new_server_config : Str → Result StartError ServerConfig
  unfolding decoded
  new_server_config path = decoded (w.read_file path)

  configured : Result ConfigError Str → Result StartError ServerConfig
  configured (err e) = err (no_config e)
  configured (ok path) = new_server_config path

  -- main up to the configuration; the name and the extensions are those of main.
  unfoldable pub server_config : Result StartError ServerConfig
  unfolding configured
  server_config = configured (
      get_config w.to_lower w.join_path w.root w.entries (text "config")
        (text ".yaml" ∷ text ".yml" ∷ []))

  -- main from the passwords on, with the variables of the process.
  unfoldable pub connected : ServerConfig → List (Str × Str) → Result StartError Started
  connected c env =
      let info = c.database in
      let file_config =
        new_config info.file_user.user (getenv env_file_pw_key env) info.net_protocol info.address
          info.name in
      let user_config =
        new_config info.account_user.user (getenv env_user_pw_key env) info.net_protocol
          info.address info.name in
      if w.opens file_config
      then if w.opens user_config
        then ok (record {
          file_config = file_config;
          user_config = user_config;
          directories = record { storage = c.storage_path; temp = w.temp_dir };
          address = c.server_address;
        })
        else err no_user_database
      else err no_file_database

  unfoldable pub after_env :
      ServerConfig
      → Option EnvError × List (Str × Str)
      → Result StartError Started × List (Str × Str)
  unfolding connected
  after_env c (some e, env) = (err (environment e), env)
  after_env c (none, env) = (connected c env, env)

  unfoldable pub started :
      Result StartError ServerConfig
      → List (Str × Str)
      → Result StartError Started × List (Str × Str)
  unfolding after_env
  started (err e) env = (err e, env)
  started (ok c) env = after_env c (load_env w.setenv_ok w.dotenv_load c.variables env)

  -- main, with the variables of its process; what follows is the server that listens.
  unfoldable pub start : List (Str × Str) → Result StartError Started × List (Str × Str)
  unfolding started
  start env = started server_config env
