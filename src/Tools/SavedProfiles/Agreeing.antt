-- ===== src/Tools/SavedProfiles/Agreeing.antt =====
-- The two ways to name a connection agree: by a profile that was saved, and by its settings.
use headless_db_mcp.Core.{SslMode}
use headless_db_mcp.JsonFile.{Files}
use headless_db_mcp.JsonFile.Laws.{IsLawful}
use headless_db_mcp.Prelude.{
  ℕ, nat_eq, text_eq, Option, none, some, ◌≡◌, refl, ◌∙◌, inl, inr, Text, Result, ok, err,
  Result-cases, err-ne-ok,
}
use headless_db_mcp.Profiles.Manager.{SecretStore, Stores, resolve, save, get_profile, secret_key}
use headless_db_mcp.Profiles.Manager.Resolving.{IsKeeping, or_old, resolve-save}
use headless_db_mcp.Profiles.Profile.{
  ConnectionProfile, ProfileError, ResolvedProfile, choose_read_only,
}
use headless_db_mcp.Tools.Connect.{
  ConnectArgs, parse_ssl_mode, names_credentials, or_false, ad_hoc, choose,
}
use headless_db_mcp.Tools.SavedProfiles.{
  SaveConnectionProfileArgs, save_params, saved_answer, save_with, save_parsed,
  call_save_connection_profile,
}
use headless_db_mcp.Tools.Support.{parse_arguments}
use headless_db_mcp.Wire.JsonRpc.{Value}

-- Arguments with a profile's name and nothing else, and the settings of a profile as arguments.
abbrev pub named : Text → ConnectArgs
named name = record {
  profile_name = some name;
  database_type = none;
  host = none;
  port = none;
  username = none;
  password = none;
  database = none;
  ssl_mode = none;
  read_only = none;
}

abbrev pub given : SaveConnectionProfileArgs → ConnectArgs
given args = record {
  profile_name = none;
  database_type = some args.database_type;
  host = some args.host;
  port = some args.port;
  username = some args.username;
  password = args.password;
  database = args.database;
  ssl_mode = args.ssl_mode;
  read_only = args.read_only;
}

choose-named :
    (resolves : Text → Result ResolvedProfile ProfileError) (name : Text) (r : ResolvedProfile)
    → resolves name ≡ ok r
    → choose (some resolves) (named name) ≡ ok r
unfolding choose names_credentials
choose-named resolves name r e = rw e refl

module _ {Disk Bytes S : Type 0} (files : Files Disk Bytes ConnectionProfile)
    (secrets : SecretStore S) (l : IsLawful files) (k : IsKeeping secrets) (now : ℕ)
    (s : Stores Disk S) (args : SaveConnectionProfileArgs) where
  saved-ok :
      (name : Text) (r : Result (Unit {0}) ProfileError) (answer : Value)
      → saved_answer files secrets name r ≡ ok answer
      → r ≡ ok tt
  saved-ok name (ok u) answer h = refl
  saved-ok name (err e) answer h = cc

  save_with-choose :
      (existing : Option ConnectionProfile) (old : Option Text)
      → get_profile files secrets s.disk args.name ≡ ok existing
      → secrets.secret s.secrets (secret_key args.name) ≡ ok old
      → or_old args.password old ≡ args.password
      → choose_read_only args.read_only existing ≡ or_false args.read_only
      → (mode : SslMode) (answer : Value) → parse_ssl_mode args.ssl_mode ≡ ok mode
      → (save_with files secrets now args (ok (some mode)) s).0 ≡ ok answer
      → choose
          (some (resolve files secrets (save_with files secrets now args (ok (some mode)) s).1))
          (named args.name)
        ≡ ad_hoc (given args)
  unfolding ad_hoc
  save_with-choose existing old g p kept flag mode answer m h =
      let params = save_params args (some mode) in
      let resolved =
        resolve-save files secrets l k now s params existing old g p
          (saved-ok args.name (save files secrets now s params).0 answer h) in
      choose-named _ args.name _ resolved ∙ rw (m, kept, flag) refl

  save_parsed-choose :
      (existing : Option ConnectionProfile) (old : Option Text)
      → get_profile files secrets s.disk args.name ≡ ok existing
      → secrets.secret s.secrets (secret_key args.name) ≡ ok old
      → or_old args.password old ≡ args.password
      → choose_read_only args.read_only existing ≡ or_false args.read_only
      → (answer : Value) → (save_parsed files secrets now (ok args) s).0 ≡ ok answer
      → choose
          (some (resolve files secrets (save_parsed files secrets now (ok args) s).1))
          (named args.name)
        ≡ ad_hoc (given args)
  save_parsed-choose existing old g p kept flag answer h =
      elim (Result-cases (parse_ssl_mode args.ssl_mode)) [
        | inl (mode, m) ↦
            rw m (save_with-choose existing old g p kept flag mode answer m (rw m at h))
        | inr (e, m) ↦ absurd (err-ne-ok (rw m at h))
      ]

  -- Given that the file system and serde_json do what `IsLawful` says and that the secret store
  -- keeps what is set: after a call of `save_connection_profile` that succeeded, on stores that
  -- could be read for its name, `connect` by that name takes the settings that it takes when it is
  -- given the same arguments itself, unless the password or the read-only flag was left out and the
  -- stores held one before.
  pub call_save_connection_profile-choose :
      (from_value : Value → Result SaveConnectionProfileArgs Text) (v : Value)
      → from_value v ≡ ok args
      → (existing : Option ConnectionProfile) (old : Option Text)
      → get_profile files secrets s.disk args.name ≡ ok existing
      → secrets.secret s.secrets (secret_key args.name) ≡ ok old
      → or_old args.password old ≡ args.password
      → choose_read_only args.read_only existing ≡ or_false args.read_only
      → (answer : Value)
      → (call_save_connection_profile files secrets from_value now (some v) s).0 ≡ ok answer
      → choose
          (some (
            resolve files secrets
              (call_save_connection_profile files secrets from_value now (some v) s).1))
          (named args.name)
        ≡ choose none (given args)
  unfolding call_save_connection_profile parse_arguments choose
  call_save_connection_profile-choose from_value v e existing old g p kept flag answer h =
      rw e (save_parsed-choose existing old g p kept flag answer (rw e at h))
