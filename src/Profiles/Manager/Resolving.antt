-- ===== src/Profiles/Manager/Resolving.antt =====
-- What a profile resolves to after it was saved or deleted.
use headless_db_mcp.Core.{ConnectionConfig}
use headless_db_mcp.HashMap.{Map, get, remove, get-insert_same, get-remove_same}
use headless_db_mcp.JsonFile.{Files, read_file, write_file}
use headless_db_mcp.JsonFile.Laws.{IsLawful, store-ok}
use headless_db_mcp.Prelude.{
  ok-injective, err-ne-ok, ℕ, Bool, true, false, nat_eq, text_eq, Option, none, some, [], ◌≡◌, refl,
  ap, ◌∙◌, inl, inr, Text, Result, ok, err, Result-cases, >>=-eq-ok,
}
use headless_db_mcp.Profiles.Manager.{
  failures, SecretStore, Stores, secret_key, validate_name, get_profile, upsert, remove_from,
  remove_profile, save_profile, save_stored, save_password, save, resolve, delete_removed,
  delete_valid, delete_profile,
}
use headless_db_mcp.Profiles.Profile.{
  ConnectionProfile, ProfileError, not_found, SaveProfileParams, choose_read_only, profile_of,
  config_of,
}
use headless_db_mcp.Secrets.FileStore.{SecretError}

-- A secret that was set is there.
pub record IsKeeping {S : Type 0} (secrets : SecretStore S) : Type 0 where
  pub sets :
      (s : S) (key value : Text)
      → (secrets.set s key value).0 ≡ ok tt
      → secrets.secret (secrets.set s key value).1 key ≡ ok (some value)

abbrev pub or_old : Option Text → Option Text → Option Text
or_old none old = old
or_old (some password) old = some password

-- The settings that were saved, with a password.
abbrev pub saved_config : SaveProfileParams → Bool → Option Text → ConnectionConfig
saved_config params read_only password = record {
  host = params.host;
  port = params.port;
  username = params.username;
  password = password;
  database = params.database;
  ssl = record {
    mode = params.ssl_mode;
    ca_path = none;
    client_cert_path = none;
    client_key_path = none;
  };
  read_only = read_only;
  additional_fields = [];
}

module _ {Disk Bytes S : Type 0} (files : Files Disk Bytes ConnectionProfile)
    (secrets : SecretStore S) (l : IsLawful files) where
  get_profile-read :
      (d : Disk) (name : Text) (file : Map Text ConnectionProfile)
      → read_file files failures d ≡ ok file
      → get_profile files secrets d name ≡ ok (get name file)
  unfolding get_profile
  get_profile-read d name file h = rw h refl

  get_profile-upsert :
      (d : Disk) (p : ConnectionProfile)
      → (upsert files secrets d p).0 ≡ ok tt
      → get_profile files secrets (upsert files secrets d p).1 p.name ≡ ok (some p)
  unfolding upsert
  get_profile-upsert d p h =
      let (f, made, now) = store-ok failures l d _ h in
      let (file, r, i) = >>=-eq-ok (read_file files failures d) _ made in
      get_profile-read _ p.name f now
      ∙ rw (← ok-injective i) (ap ok (get-insert_same p.name p file))

  resolve-found :
      (s : Stores Disk S) (name : Text) (p : ConnectionProfile) (password : Option Text)
      → validate_name name ≡ ok tt
      → get_profile files secrets s.disk name ≡ ok (some p)
      → secrets.secret s.secrets (secret_key name) ≡ ok password
      → resolve files secrets s name
        ≡ ok (record { database_type = p.database_type; config = config_of p password })
  unfolding resolve
  resolve-found s name p password v g k = rw (v, g, k) refl

  module _ (k : IsKeeping secrets) (now : ℕ) (s : Stores Disk S) (params : SaveProfileParams)
      (existing : Option ConnectionProfile) where
    abbrev Resolves : Stores Disk S → Option Text → Type 0
    Resolves after password =
        resolve files secrets after params.name
        ≡ ok (record {
          database_type = params.database_type;
          config = saved_config params (choose_read_only params.read_only existing) password;
        })

    save_profile-Resolves :
        (at : Stores Disk S) (b : Bool) (password : Option Text)
        → validate_name params.name ≡ ok tt
        → secrets.secret at.secrets (secret_key params.name) ≡ ok password
        → (save_profile files secrets now at params existing b).0 ≡ ok tt
        → Resolves (save_profile files secrets now at params existing b).1 password
    unfolding profile_of config_of
    save_profile-Resolves at b password v p h =
        resolve-found _ params.name (profile_of now params existing b) password v
          (get_profile-upsert at.disk (profile_of now params existing b) h) p

    save_stored-Resolves :
        (at : Stores Disk S) (r : Result (Unit {0}) SecretError) (password : Text)
        → validate_name params.name ≡ ok tt
        → (r ≡ ok tt → secrets.secret at.secrets (secret_key params.name) ≡ ok (some password))
        → (save_stored files secrets now at params existing r).0 ≡ ok tt
        → Resolves (save_stored files secrets now at params existing r).1 (some password)
    save_stored-Resolves at (ok u) password v p h =
        save_profile-Resolves at true (some password) v (p refl) h
    save_stored-Resolves at (err e) password v p h = cc

    save_password-Resolves :
        (o old : Option Text)
        → validate_name params.name ≡ ok tt
        → secrets.secret s.secrets (secret_key params.name) ≡ ok old
        → (save_password files secrets now s params existing o).0 ≡ ok tt
        → Resolves (save_password files secrets now s params existing o).1 (or_old o old)
    save_password-Resolves none old v p h = save_profile-Resolves s _ old v p h
    save_password-Resolves (some password) old v p h =
        save_stored-Resolves _ _ password v (k.sets s.secrets (secret_key params.name) password) h

    save-valid : (save files secrets now s params).0 ≡ ok tt → validate_name params.name ≡ ok tt
    unfolding save
    save-valid h = elim (Result-cases (validate_name params.name)) [
      | inl (u, e) ↦ e
      | inr (x, e) ↦ absurd (err-ne-ok (rw e at h))
    ]

    -- Given that the file system and serde_json do what `IsLawful` says and that the secret store
    -- keeps what is set: after a `save` that succeeded, on stores that could be read for its name,
    -- the name resolves to the saved settings, with the saved password if one was given and else
    -- with the one that the secret store had under the name, and with the saved read-only flag if
    -- one was given, else that of the profile it replaces, else not read-only.
    pub resolve-save :
        (old : Option Text)
        → get_profile files secrets s.disk params.name ≡ ok existing
        → secrets.secret s.secrets (secret_key params.name) ≡ ok old
        → (save files secrets now s params).0 ≡ ok tt
        → resolve files secrets (save files secrets now s params).1 params.name
          ≡ ok (record {
            database_type = params.database_type;
            config =
                saved_config params
                  (choose_read_only params.read_only existing)
                  (or_old params.password old);
          })
    unfolding save
    resolve-save old g p h =
        let v = save-valid h in
        rw (v, g) (save_password-Resolves params.password old v p (rw (v, g) at h))

  get_profile-remove :
      (d : Disk) (name : Text) (r : Result (Map Text ConnectionProfile) ProfileError) (b : Bool)
      → (remove_from files secrets d name r).0 ≡ ok b
      → get_profile files secrets (remove_from files secrets d name r).1 name ≡ ok none
  get_profile-remove d name (err e) b h = cc
  get_profile-remove d name (ok file) b h =
      let (u, w, rest) = >>=-eq-ok (write_file files failures d (remove name file)).0 _ h in
      let (f, made, now) = store-ok failures l d (ok (remove name file)) w in
      get_profile-read _ name f now ∙ rw (← ok-injective made) (ap ok (get-remove_same name file))

  resolve-none :
      (s : Stores Disk S) (name : Text)
      → validate_name name ≡ ok tt
      → get_profile files secrets s.disk name ≡ ok none
      → resolve files secrets s name ≡ err (not_found name)
  unfolding resolve
  resolve-none s name v g = rw (v, g) refl

  delete_removed-disk :
      (s : Stores Disk S) (name : Text) (r : Result Bool ProfileError)
      → (delete_removed files secrets s name r).1.disk ≡ s.disk
  delete_removed-disk s name (err e) = refl
  delete_removed-disk s name (ok true) = refl
  delete_removed-disk s name (ok false) = refl

  delete_removed-ok :
      (s : Stores Disk S) (name : Text) (r : Result Bool ProfileError)
      → (delete_removed files secrets s name r).0 ≡ ok tt
      → r ≡ ok true
  delete_removed-ok s name (err e) h = cc
  delete_removed-ok s name (ok true) h = refl
  delete_removed-ok s name (ok false) h = cc

  delete_valid-resolve :
      (s : Stores Disk S) (name : Text) (v : Result (Unit {0}) ProfileError)
      → validate_name name ≡ v
      → (delete_valid files secrets s name v).0 ≡ ok tt
      → resolve files secrets (delete_valid files secrets s name v).1 name ≡ err (not_found name)
  unfolding remove_profile
  delete_valid-resolve s name (err e) v h = cc
  delete_valid-resolve s name (ok u) v h =
      let removed = delete_removed-ok _ name _ h in
      resolve-none _ name v (
        ap (λ d. get_profile files secrets d name) (delete_removed-disk _ name _)
        ∙ get_profile-remove s.disk name (read_file files failures s.disk) true removed)

  -- Given that the file system and serde_json do what `IsLawful` says: after a `delete` that
  -- succeeded, the name does not resolve, since it is not found.
  pub resolve-delete_profile :
      (s : Stores Disk S) (name : Text)
      → (delete_profile files secrets s name).0 ≡ ok tt
      → resolve files secrets (delete_profile files secrets s name).1 name ≡ err (not_found name)
  unfolding delete_profile
  resolve-delete_profile s name h = delete_valid-resolve s name (validate_name name) refl h
