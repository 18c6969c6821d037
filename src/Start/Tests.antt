-- ===== src/Start/Tests.antt =====
-- Witnesses of the start: a configuration that sets the password of the account user, in a process
-- that has the other one, with a .env file that sets both.
use local_drive.Base.{
  ◌≡◌, refl, true, none, some, List, [], ◌∷◌, Str, text, str_eq, join, ok, find, insert, Str_eq,
  find-insert, Str-eq_iff, arith,
}
use local_drive.Config.{
  is_extension, has_newline, add_files, get_files, search, searched, get_config,
}
use local_drive.Start.{
  ServerConfig, World, env_file_pw_key, env_user_pw_key, new_server_config, server_config, start,
}
use local_drive.Start.Variables.{
  DotenvLoad, LoadsEnv, Distinct, given, KeepsSet, load_environment, load_env_files, load_env,
  load_env-given,
}
use local_drive.Start.Passwords.{file_database, user_database, start-passwords}

-- Sets a key that is not set.
abbrev set_new : Str → Str → List (Str × Str) → List (Str × Str)
set_new key value env = elim (find key env) [ none ↦ insert key value env | some _ ↦ env ]

set_new-kept :
    (k v : Str) (env : List (Str × Str)) (key value : Str)
    → find key env ≡ some value
    → find key (set_new k v env) ≡ some value
set_new-kept k v env key value h = ground (arith, find-insert k key v env, Str-eq_iff k key)

-- One file that sets both passwords.
abbrev dotenv : DotenvLoad
dotenv files env =
    (true, set_new env_file_pw_key (text "dot-f") (set_new env_user_pw_key (text "dot-u") env))

dotenv-KeepsSet : KeepsSet dotenv
dotenv-KeepsSet files env key value h =
    set_new-kept env_file_pw_key (text "dot-f") (set_new env_user_pw_key (text "dot-u") env) key
      value (set_new-kept env_user_pw_key (text "dot-u") env key value h)

abbrev variables : LoadsEnv
variables = record {
  env_files = text ".env" ∷ [];
  environment = (env_user_pw_key, text "conf-u") ∷ [];
}

abbrev config : ServerConfig
config = record {
  database = record {
    name = text "drive";
    address = text "localhost:3306";
    net_protocol = text "tcp";
    file_user = record { user = text "fileuser" };
    account_user = record { user = text "accountuser" };
  };
  variables = variables;
  storage_path = text "/srv";
  server_address = text "localhost:8080";
}

abbrev process : List (Str × Str)
process = (env_file_pw_key, text "proc-f") ∷ (env_user_pw_key, text "proc-u") ∷ []

abbrev world : World
world = record {
  to_lower = λ s. s;
  join_path = join (text "/");
  root = some (text "app");
  entries = some (text "config.yml" ∷ []);
  read_file = λ path. some path;
  unmarshal = λ b. some config;
  setenv_ok = λ key value. true;
  dotenv_load = dotenv;
  opens = λ c. true;
  temp_dir = text "/tmp";
}

server_config_test : server_config world ≡ ok config
unfolding server_config new_server_config get_config get_files searched search add_files
    is_extension has_newline find insert str_eq text join
server_config_test = refl

loaded_test : (load_env (λ key value. true) dotenv variables process).0 ≡ none
unfolding load_env load_environment load_env_files
loaded_test = refl

file_pw_test : given variables.environment process env_file_pw_key ≡ some (text "proc-f")
unfolding find str_eq text
file_pw_test = refl

user_pw_test : given variables.environment process env_user_pw_key ≡ some (text "conf-u")
unfolding find str_eq text
user_pw_test = refl

Distinct-variables : Distinct variables.environment
unfolding find
Distinct-variables = (refl, tt)

load_env-given_example :
    find env_user_pw_key (load_env (λ key value. true) dotenv variables process).1
    ≡ some (text "conf-u")
load_env-given_example =
    load_env-given (λ key value. true) dotenv variables process env_user_pw_key (text "conf-u")
      Distinct-variables dotenv-KeepsSet loaded_test user_pw_test

start-passwords_example :
    (start world process).0
    ≡ ok (record {
      file_config = file_database world config (text "proc-f") (text "conf-u");
      user_config = user_database world config (text "proc-f") (text "conf-u");
      directories = record { storage = text "/srv"; temp = text "/tmp" };
      address = text "localhost:8080";
    })
start-passwords_example =
    start-passwords world config (text "proc-f") (text "conf-u") process server_config_test
      Distinct-variables dotenv-KeepsSet loaded_test file_pw_test user_pw_test refl refl
