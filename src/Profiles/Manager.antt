-- ===== src/Profiles/Manager.antt =====
-- crates/connection-profiles/src/manager.rs, metadata_store.rs and profile.rs.
pub mod Resolving
use headless_db_mcp.HashMap.{Map, get, insert, remove, contains_key}
use headless_db_mcp.JsonFile.{Files, Failures, read_file, write_file, store}
use headless_db_mcp.Prelude.{
  ℕ, zero, suc, Bool, true, false, nat_eq, text_eq, Option, none, some, List, [], ◌∷◌, ◌++◌, map,
  arith, Text, lit, Result, ok, err, ◌>>=◌, ◌>>◌, ok_or, map_err,
}
use headless_db_mcp.Profiles.Profile.{
  ConnectionProfile, ProfileError, SaveProfileParams, ResolvedProfile, profile_has_password,
  profile_of, config_of, io_failure, corrupted, empty_name, not_found, secret_failed,
}
use headless_db_mcp.Secrets.FileStore.{SecretError}
use headless_db_mcp.Sorting.{text_leb, sort_by_key}

abbrev pub failures : Failures ProfileError
failures = record {
  io_failure = io_failure;
  unparsed = λ e. corrupted (lit "failed to parse connection profile store file: " ++ e);
  unserialized = λ e. corrupted (lit "failed to serialize connection profile store file: " ++ e);
}

-- The trait `SecretStore`, on a state of its own.
pub record SecretStore (S : Type 0) : Type 0 where
  pub secret : S → Text → Result (Option Text) SecretError
  pub set : S → Text → Text → Result (Unit {0}) SecretError × S
  pub delete : S → Text → Result (Unit {0}) SecretError × S

pub record Stores (Disk S : Type 0) : Type 0 where
  pub disk : Disk
  pub secrets : S

unfoldable pub secret_key : Text → Text
secret_key name = lit "profile:" ++ (name ++ lit ":password")

unfoldable pub validate_name : Text → Result (Unit {0}) ProfileError
validate_name [] = err empty_name
validate_name (c ∷ name) = ok tt

module _ {Disk Bytes S : Type 0} (files : Files Disk Bytes ConnectionProfile)
    (secrets : SecretStore S) where
  -- `ProfileMetadataStore`.
  unfoldable pub get_profile : Disk → Text → Result (Option ConnectionProfile) ProfileError
  get_profile disk name = do file ← read_file files failures disk; ok (get name file)

  unfoldable pub upsert : Disk → ConnectionProfile → Result (Unit {0}) ProfileError × Disk
  upsert disk profile =
      store files failures disk
        (do file ← read_file files failures disk; ok (insert profile.name profile file))

  abbrev pub remove_from :
      Disk
      → Text
      → Result (Map Text ConnectionProfile) ProfileError
      → Result Bool ProfileError × Disk
  remove_from disk name (err e) = (err e, disk)
  remove_from disk name (ok file) =
      let (r, disk') = write_file files failures disk (remove name file) in
      (r >> ok (contains_key name file), disk')

  unfoldable pub remove_profile : Disk → Text → Result Bool ProfileError × Disk
  remove_profile disk name = remove_from disk name (read_file files failures disk)

  unfoldable pub list_profiles : Stores Disk S → Result (List ConnectionProfile) ProfileError
  list_profiles s = do
    file ← read_file files failures s.disk
    ok (sort_by_key text_leb (λ p. p.name) (map (λ entry. entry.1) file))

  -- `save`, from its end: the profile is stored when its password is.
  abbrev pub save_profile :
      ℕ
      → Stores Disk S
      → SaveProfileParams
      → Option ConnectionProfile
      → Bool
      → Result (Unit {0}) ProfileError × Stores Disk S
  save_profile now s params existing has_password =
      let (r, disk) = upsert s.disk (profile_of now params existing has_password) in
      (r, record s { disk = disk })

  abbrev pub save_stored :
      ℕ
      → Stores Disk S
      → SaveProfileParams
      → Option ConnectionProfile
      → Result (Unit {0}) SecretError
      → Result (Unit {0}) ProfileError × Stores Disk S
  save_stored now s params existing (err e) = (err (secret_failed e), s)
  save_stored now s params existing (ok u) = save_profile now s params existing true

  abbrev pub save_password :
      ℕ
      → Stores Disk S
      → SaveProfileParams
      → Option ConnectionProfile
      → Option Text
      → Result (Unit {0}) ProfileError × Stores Disk S
  save_password now s params existing none =
      save_profile now s params existing (profile_has_password existing)
  save_password now s params existing (some password) =
      let (r, after) = secrets.set s.secrets (secret_key params.name) password in
      save_stored now (record s { secrets = after }) params existing r

  abbrev pub save_over :
      ℕ
      → Stores Disk S
      → SaveProfileParams
      → Result (Option ConnectionProfile) ProfileError
      → Result (Unit {0}) ProfileError × Stores Disk S
  save_over now s params (err e) = (err e, s)
  save_over now s params (ok existing) = save_password now s params existing params.password

  unfoldable pub save :
      ℕ → Stores Disk S → SaveProfileParams → Result (Unit {0}) ProfileError × Stores Disk S
  save now s params =
      save_over now s params (validate_name params.name >> get_profile s.disk params.name)

  unfoldable pub resolve : Stores Disk S → Text → Result ResolvedProfile ProfileError
  resolve s name = do
    validate_name name
    found ← get_profile s.disk name
    profile ← ok_or found (not_found name)
    password ← map_err secret_failed (secrets.secret s.secrets (secret_key name))
    ok (record { database_type = profile.database_type; config = config_of profile password })

  abbrev pub delete_removed :
      Stores Disk S
      → Text
      → Result Bool ProfileError
      → Result (Unit {0}) ProfileError × Stores Disk S
  delete_removed s name (err e) = (err e, s)
  delete_removed s name (ok false) = (err (not_found name), s)
  delete_removed s name (ok true) =
      let (r, after) = secrets.delete s.secrets (secret_key name) in
      (map_err secret_failed r, record s { secrets = after })

  abbrev pub delete_valid :
      Stores Disk S
      → Text
      → Result (Unit {0}) ProfileError
      → Result (Unit {0}) ProfileError × Stores Disk S
  delete_valid s name (err e) = (err e, s)
  delete_valid s name (ok u) =
      let (r, disk) = remove_profile s.disk name in delete_removed (record s { disk = disk }) name r

  unfoldable pub delete_profile :
      Stores Disk S → Text → Result (Unit {0}) ProfileError × Stores Disk S
  delete_profile s name = delete_valid s name (validate_name name)
