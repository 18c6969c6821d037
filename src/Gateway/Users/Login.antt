-- ===== src/Gateway/Users/Login.antt =====
-- Adding a user, and then checking credentials.
use local_drive.Base.{
  ℕ, ◌≡◌, ◌≢◌, ◌↔◌, refl, sym, ap, ◌∙◌, Bool, true, Option, none, some, List, [], ◌∷◌, Str, Result,
  ok, err, ◌>>=◌, All, length, Option-cases, inl, inr, arith, subst,
}
use local_drive.Sql.Node.{BuildError}
use local_drive.Sql.Placeholder.{Arg}
use local_drive.Hasher.Base64.{IsByte}
use local_drive.Hasher.Phc.{
  RawHash, HashResult, HashError, encode, parse_phc, default_argon2_params,
}
use local_drive.Hasher.Compare.{
  Argon2, Random, IsUsable, hash, compare, key, compare-parse_phc, hash_new, hash_no_salt,
}
use local_drive.Users.Credentials.{UsernameError, validate_username}
use local_drive.Users.Rules.{IsUsername, validate_username_iff}
use local_drive.Database.Rows.{select_rows}
use local_drive.Database.{Database, GatewayError, hashing, exec_query}
use local_drive.Gateway.Users.{
  UserAccount, get_user_query, to_args, users_of, scan_user, selected, normalised, new_account,
  returned, inserted, validated, hashed, add_user, get_user_by_username, compared, checked,
  validate_user, add_user_query,
}

default-IsUsable : (argon : Argon2) → IsUsable argon default_argon2_params
default-IsUsable argon = record {
  in_range = record {
    time = omega arith;
    memory = omega arith;
    threads = omega arith;
    key_length = omega arith;
  };
  time = omega arith;
  threads = omega arith;
}

module _ (db : Database) (argon : Argon2) (to_lower : Str → Str) (random : Random) where
  returned-ok :
      (acc acc' : UserAccount) (r : Result GatewayError ℕ × db.Store) (s' : db.Store)
      → returned db argon to_lower random acc r ≡ (ok acc', s')
      → acc ≡ acc'
  unfolding returned
  returned-ok acc acc' (err e, s) s' h = cc
  returned-ok acc acc' (ok n, s) s' h = cc

  inserted-ok :
      (s : db.Store) (acc acc' : UserAccount) (r : Result BuildError (Str × List Arg))
      (s' : db.Store)
      → inserted db argon to_lower random s acc r ≡ (ok acc', s')
      → acc ≡ acc'
  unfolding inserted
  inserted-ok s acc acc' (err e) s' h = cc
  inserted-ok s acc acc' (ok (q, args)) s' h = returned-ok acc acc' (exec_query db s q args) s' h

  validated-ok :
      (s : db.Store) (acc acc' : UserAccount) (r : Result UsernameError (Unit {0})) (s' : db.Store)
      → validated db argon to_lower random s acc r ≡ (ok acc', s')
      → (r ≡ ok tt) × (acc ≡ acc')
  unfolding validated
  validated-ok s acc acc' (err e) s' h = cc
  validated-ok s acc acc' (ok u) s' h = (refl, inserted-ok s acc acc' (add_user_query acc) s' h)

  checked-ok :
      (password : Str) (u : UserAccount) (hr : HashResult) (b : Bool)
      → parse_phc u.password_hash ≡ ok hr
      → compare argon random password hr ≡ ok b
      → checked db argon to_lower random password (ok (some u)) ≡ ok (b, some u)
  unfolding checked
  checked-ok password u hr b e e' =
      ap (λ r. compared db argon to_lower random u (r >>= compare argon random password)) e
      ∙ ap (compared db argon to_lower random u) e'

  get_user-found :
      (s : db.Store) (acc : UserAccount) (q : Str) (args : List Arg)
      → get_user_query acc.name ≡ ok (q, args)
      → db.query s q args ≡ ok (to_args acc ∷ [])
      → get_user_by_username db argon to_lower random s acc.name ≡ ok (some acc)
  unfolding get_user_by_username users_of select_rows scan_user to_args
  get_user-found s acc q args e found =
      ap (selected db argon to_lower random s) e ∙ ap users_of found

  login-ok :
      (s : db.Store) (name password : Str) (acc : UserAccount) (rh : RawHash) (hr : HashResult)
      (b : Bool)
      → get_user_by_username db argon to_lower random s acc.name ≡ ok (some acc)
      → normalised db argon to_lower random name ≡ acc.name
      → acc.password_hash ≡ (encode rh).phc
      → parse_phc (encode rh).phc ≡ ok hr
      → compare argon random password hr ≡ ok b
      → validate_user db argon to_lower random s name password ≡ ok (b, some acc)
  unfolding validate_user
  login-ok s name password acc rh hr b found same stored parsed compared =
      ap
        (λ n.
          checked db argon to_lower random password
            (get_user_by_username db argon to_lower random s n))
        same
      ∙ ap (checked db argon to_lower random password) found
      ∙ checked-ok password acc hr b (ap parse_phc stored ∙ parsed) compared

  hashed-name :
      (id : Str) (now : ℕ) (s s' : db.Store) (name : Str) (acc : UserAccount)
      (r : Result HashError RawHash)
      → hashed db argon to_lower random s id now name r ≡ (ok acc, s')
      → acc.name ≡ name
  unfolding hashed new_account
  hashed-name id now s s' name acc (err e) h = cc
  hashed-name id now s s' name acc (ok raw) h =
      ap (λ (a : UserAccount). a.name)
        (sym (
          (validated-ok s (new_account db argon to_lower random id now name raw) acc
            (validate_username name) s' h).1))

  -- An account that was added has the normalised name.
  pub add_user-name :
      (id : Str) (now : ℕ) (s s' : db.Store) (name password : Str) (acc : UserAccount)
      → add_user db argon to_lower random id now s name password ≡ (ok acc, s')
      → acc.name ≡ normalised db argon to_lower random name
  unfolding add_user
  add_user-name id now s s' name password acc h =
      hashed-name id now s s' (normalised db argon to_lower random name) acc
        (hash argon random password none default_argon2_params) h

  -- A reader of random bytes fails or gives as many bytes as are asked for. An account is added, and
  -- at some later time the database answers the query for its name with the account's row alone: the
  -- name follows the rules, and checking any password at that time, under any spelling of the name
  -- that is normalised to it, returns the account and a result that is `true` exactly when the
  -- password has the same Argon2id key, for the salt that was read, as the one that the account was
  -- added with.
  pub add_user-validate_user :
      (id : Str) (now : ℕ) (s s' t : db.Store) (name other_name password guess : Str)
      (acc : UserAccount) (q : Str) (args : List Arg)
      → ((n : ℕ) (salt : List ℕ) → random n ≡ some salt → All IsByte salt × (length salt ≡ n))
      → add_user db argon to_lower random id now s name password ≡ (ok acc, s')
      → get_user_query acc.name ≡ ok (q, args)
      → db.query t q args ≡ ok (to_args acc ∷ [])
      → normalised db argon to_lower random other_name ≡ acc.name
      → IsUsername acc.name
        × ((salt : List ℕ) × (random default_argon2_params.salt_length ≡ some salt)
            × ((b : Bool) × (validate_user db argon to_lower random t other_name guess
                  ≡ ok (b, some acc))
                × ((b ≡ true) ↔ (
                    key argon guess salt default_argon2_params
                    ≡ key argon password salt default_argon2_params))))
  unfolding add_user hashed new_account
  add_user-validate_user id now s s' t name other_name password guess acc q args salts h built found
        spelled =
      let p = default_argon2_params in
      let n = normalised db argon to_lower random name in
      elim (Option-cases (random p.salt_length)) [
        | inl e ↦ absurd (
            no_hash (
              sym (
                ap (hashed db argon to_lower random s id now n)
                  (hash_no_salt argon random password p e))
              ∙ h))
        | inr (salt, e) ↦
            let (bytes, len) = salts p.salt_length salt e in
            let (rh, made, (hr, parsed, (b, result, agree))) =
              compare-parse_phc argon random password guess salt p (default-IsUsable argon) bytes
                len in
            let (valid, same) =
              validated-ok s (new_account db argon to_lower random id now n rh) acc
                (validate_username n) s'
                (sym (
                    ap (hashed db argon to_lower random s id now n)
                      (hash_new argon random password p salt e ∙ made))
                  ∙ h) in
            (
              subst (λ (a : UserAccount). IsUsername a.name) same
                  ((validate_username_iff n).0 valid),
              (
                salt,
                e,
                (
                  b,
                  login-ok t other_name guess acc rh hr b (get_user-found t acc q args built found)
                      spelled (ap (λ (a : UserAccount). a.password_hash) (sym same)) parsed result,
                  agree,
                ),
              ),
            )
      ]
    where
      no_hash :
          {s : db.Store}
          → ◌≢◌ {A = Result GatewayError UserAccount × db.Store} (err hashing, s) (ok acc, s')
      no_hash e = cc

module _ (db : Database) (argon : Argon2) (to_lower : Str → Str) (r r' : Random) where
  compared-random :
      (u : UserAccount) (result : Result HashError Bool)
      → compared db argon to_lower r u result ≡ compared db argon to_lower r' u result
  unfolding compared
  compared-random u (err e) = refl
  compared-random u (ok b) = refl

  checked-random :
      (password : Str) (found : Result GatewayError (Option UserAccount))
      → checked db argon to_lower r password found ≡ checked db argon to_lower r' password found
  unfolding checked compare hash
  checked-random password (err e) = refl
  checked-random password (ok none) = refl
  checked-random password (ok (some u)) =
      compared-random u (parse_phc u.password_hash >>= compare argon r password)

  selected-random :
      (s : db.Store) (q : Result BuildError (Str × List Arg))
      → selected db argon to_lower r s q ≡ selected db argon to_lower r' s q
  unfolding selected
  selected-random s (err e) = refl
  selected-random s (ok (q, args)) = refl

  -- A check reads no random bytes: the salt is the stored one.
  pub validate_user-random :
      (s : db.Store) (name password : Str)
      → validate_user db argon to_lower r s name password
        ≡ validate_user db argon to_lower r' s name password
  unfolding validate_user normalised get_user_by_username
  validate_user-random s name password =
      checked-random password
        (get_user_by_username db argon to_lower r s (normalised db argon to_lower r name))
      ∙ ap (checked db argon to_lower r' password)
          (selected-random s (get_user_query (normalised db argon to_lower r name)))
