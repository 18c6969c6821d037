-- ===== src/Start/Variables.antt =====
-- LoadEnv of src/config/server_config.go, with LoadEnvironment and LoadEnvFiles.
use local_drive.Base.{
  ◌≡◌, refl, ◌∙◌, Bool, Bool-cases, true, false, Option, none, some, inl, inr, List, [], ◌∷◌, Str,
  find, insert, find-insert, Str-eq_iff, Str_eq, if◌then◌else◌, arith,
}

-- Setenv refused a pair; the .env files could not be loaded.
pub data EnvError : Type 0 where
  setenv_failed env_files_failed : EnvError

-- godotenv.Load: whether it succeeds, and the variables that it leaves.
abbrev pub DotenvLoad : Type 0
DotenvLoad = List Str → List (Str × Str) → Bool × List (Str × Str)

-- The fields EnvFiles and Environment of a ServerConfig.
pub record LoadsEnv : Type 0 where
  pub env_files : List Str
  pub environment : List (Str × Str)

module _ (setenv_ok : Str → Str → Bool) (dotenv_load : DotenvLoad) where
  -- LoadEnvironment, which stops at the first pair that is refused.
  unfoldable pub load_environment :
      List (Str × Str) → List (Str × Str) → Option EnvError × List (Str × Str)
  load_environment [] env = (none, env)
  load_environment ((key, value) ∷ rest) env =
      let later = load_environment rest (insert key value env) in
      if setenv_ok key value then later else (some setenv_failed, env)

  unfoldable pub files_loaded : Bool × List (Str × Str) → Option EnvError × List (Str × Str)
  files_loaded (false, env) = (some env_files_failed, env)
  files_loaded (true, env) = (none, env)

  -- LoadEnvFiles
  unfoldable pub load_env_files : List Str → List (Str × Str) → Option EnvError × List (Str × Str)
  unfolding files_loaded
  load_env_files [] env = (none, env)
  load_env_files (f ∷ fs) env = files_loaded (dotenv_load (f ∷ fs) env)

  unfoldable pub with_files :
      List Str → Option EnvError × List (Str × Str) → Option EnvError × List (Str × Str)
  unfolding load_env_files
  with_files fs (some e, env) = (some e, env)
  with_files fs (none, env) = load_env_files fs env

  -- LoadEnv
  unfoldable pub load_env : LoadsEnv → List (Str × Str) → Option EnvError × List (Str × Str)
  unfolding load_environment with_files
  load_env c env = with_files c.env_files (load_environment c.environment env)

-- The keys of a Go map are different.
abbrev pub Distinct : List (Str × Str) → Type 0
Distinct [] = Unit
Distinct ((key, value) ∷ rest) = (find key rest ≡ none) × Distinct rest

-- The value of a key in the pairs, or else in the variables.
abbrev pub given : List (Str × Str) → List (Str × Str) → Str → Option Str
given pairs env key = elim (find key pairs) [ none ↦ find key env | some value ↦ some value ]

-- What godotenv documents of Load: a variable that is set keeps its value.
abbrev pub KeepsSet : DotenvLoad → Type 0
KeepsSet load =
    (files : List Str) (env : List (Str × Str)) (key value : Str)
    → find key env ≡ some value
    → find key (load files env).1 ≡ some value

given-cons :
    (k v : Str) (rest env : List (Str × Str)) (key : Str)
    → find k rest ≡ none
    → given rest (insert k v env) key ≡ given ((k, v) ∷ rest) env key
unfolding find
given-cons k v rest env key new = ground (arith, find-insert k key v env, Str-eq_iff k key)

module _ (setenv_ok : Str → Str → Bool) (dotenv_load : DotenvLoad) where
  -- Where no pair is refused, each key has the value of its pair, or else the one it had.
  load_environment-given :
      (pairs env : List (Str × Str)) (key : Str)
      → Distinct pairs
      → (load_environment setenv_ok dotenv_load pairs env).0 ≡ none
      → find key (load_environment setenv_ok dotenv_load pairs env).1 ≡ given pairs env key
  unfolding load_environment find
  load_environment-given [] env key d h = refl
  load_environment-given ((k, v) ∷ rest) env key (new, d) h = elim (Bool-cases (setenv_ok k v)) [
    | inl e ↦ rw e (
        load_environment-given rest (insert k v env) key d (rw e at h)
        ∙ given-cons k v rest env key new)
    | inr e ↦ absurd (ground (arith, h))
  ]

  load_env_files-kept :
      (files : List Str) (env : List (Str × Str)) (key value : Str)
      → KeepsSet dotenv_load
      → find key env ≡ some value
      → find key (load_env_files setenv_ok dotenv_load files env).1 ≡ some value
  unfolding load_env_files
  load_env_files-kept [] env key value keeps h = h
  load_env_files-kept (f ∷ fs) env key value keeps h =
      loaded (dotenv_load (f ∷ fs) env) (keeps (f ∷ fs) env key value h)
    where
      loaded :
          (r : Bool × List (Str × Str))
          → find key r.1 ≡ some value
          → find key (files_loaded setenv_ok dotenv_load r).1 ≡ some value
      loaded (false, e) h = h
      loaded (true, e) h = h

  with_files-kept :
      (files : List Str) (r : Option EnvError × List (Str × Str)) (key value : Str)
      → KeepsSet dotenv_load
      → (with_files setenv_ok dotenv_load files r).0 ≡ none
      → (r.0 ≡ none)
        × (find key r.1 ≡ some value
            → find key (with_files setenv_ok dotenv_load files r).1 ≡ some value)
  unfolding with_files
  with_files-kept files (some e, env) key value keeps h = absurd (cc h)
  with_files-kept files (none, env) key value keeps h =
      (refl, load_env_files-kept files env key value keeps)

  -- The keys of Environment differ, as those of a Go map do, and Load of godotenv leaves what is set.
  -- Where LoadEnv succeeds, a key has the value that Environment gives it, or, without one, the value
  -- that it had before, whatever the .env files say.
  pub load_env-given :
      (c : LoadsEnv) (env : List (Str × Str)) (key value : Str)
      → Distinct c.environment
      → KeepsSet dotenv_load
      → (load_env setenv_ok dotenv_load c env).0 ≡ none
      → given c.environment env key ≡ some value
      → find key (load_env setenv_ok dotenv_load c env).1 ≡ some value
  unfolding load_env
  load_env-given c env key value d keeps h e =
      let (set, kept) =
        with_files-kept c.env_files (load_environment setenv_ok dotenv_load c.environment env) key
          value keeps h in
      kept (load_environment-given c.environment env key d set ∙ e)
