-- ===== src/Start/Passwords.antt =====
-- What the databases are opened with.
use local_drive.Base.{◌≡◌, refl, ap, ◌∙◌, true, Option, none, some, List, Str, ok, find, Str_eq}
use local_drive.Start.{
  ServerConfig, MysqlConfig, World, new_config, getenv, env_file_pw_key, env_user_pw_key,
  server_config, connected, after_env, started, start,
}
use local_drive.Start.Variables.{EnvError, Distinct, given, KeepsSet, load_env, load_env-given}

getenv-some :
    (key value : Str) (env : List (Str × Str)) → find key env ≡ some value → getenv key env ≡ value
unfolding getenv
getenv-some key value env h = rw (h, getenv) refl

module _ (w : World) (c : ServerConfig) (file_pw user_pw : Str) where
  -- The settings of the two databases, with the passwords.
  abbrev pub file_database : MysqlConfig
  file_database =
      new_config c.database.file_user.user file_pw c.database.net_protocol c.database.address
        c.database.name

  abbrev pub user_database : MysqlConfig
  user_database =
      new_config c.database.account_user.user user_pw c.database.net_protocol c.database.address
        c.database.name

  connected-ok :
      (env : List (Str × Str))
      → getenv env_file_pw_key env ≡ file_pw
      → getenv env_user_pw_key env ≡ user_pw
      → w.opens file_database ≡ true
      → w.opens user_database ≡ true
      → connected w c env
        ≡ ok (record {
          file_config = file_database;
          user_config = user_database;
          directories = record { storage = c.storage_path; temp = w.temp_dir };
          address = c.server_address;
        })
  unfolding connected
  connected-ok env e f o p = rw (e, f, o, p) refl

  after_env-none :
      (r : Option EnvError × List (Str × Str))
      → r.0 ≡ none
      → (after_env w c r).0 ≡ connected w c r.1
  unfolding after_env
  after_env-none (some e, env) h = absurd (cc h)
  after_env-none (none, env) h = refl

  -- The configuration is found and read; the keys of its Environment differ, as those of a Go map do;
  -- Load of godotenv leaves what is set; LoadEnv succeeds; Environment, or else the process, sets the
  -- two passwords; and the databases open with the settings of the configuration and these passwords.
  -- Then main comes to the server with these databases, whatever passwords the .env files set.
  pub start-passwords :
      (env : List (Str × Str))
      → server_config w ≡ ok c
      → Distinct c.variables.environment
      → KeepsSet w.dotenv_load
      → (load_env w.setenv_ok w.dotenv_load c.variables env).0 ≡ none
      → given c.variables.environment env env_file_pw_key ≡ some file_pw
      → given c.variables.environment env env_user_pw_key ≡ some user_pw
      → w.opens file_database ≡ true
      → w.opens user_database ≡ true
      → (start w env).0
        ≡ ok (record {
          file_config = file_database;
          user_config = user_database;
          directories = record { storage = c.storage_path; temp = w.temp_dir };
          address = c.server_address;
        })
  unfolding start started
  start-passwords env e d keeps set f u o p =
      let after = (load_env w.setenv_ok w.dotenv_load c.variables env).1 in
      let value = λ (key pw : Str) (g : given c.variables.environment env key ≡ some pw).
        getenv-some key pw after
          (load_env-given w.setenv_ok w.dotenv_load c.variables env key pw d keeps set g) in
      ap (λ r. (started w r env).0) e
      ∙ after_env-none (load_env w.setenv_ok w.dotenv_load c.variables env) set
      ∙ connected-ok after (value env_file_pw_key file_pw f) (value env_user_pw_key user_pw u) o p
