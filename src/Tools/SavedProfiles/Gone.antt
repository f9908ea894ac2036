-- ===== src/Tools/SavedProfiles/Gone.antt =====
-- A profile that was deleted cannot be connected to by its name.
use headless_db_mcp.JsonFile.{Files}
use headless_db_mcp.JsonFile.Laws.{IsLawful}
use headless_db_mcp.McpServer.Tool.{McpToolError, failed}
use headless_db_mcp.Prelude.{some, ◌≡◌, refl, ◌++◌, Text, lit, Result, ok, err}
use headless_db_mcp.Profiles.Manager.{SecretStore, Stores, resolve, delete_profile}
use headless_db_mcp.Profiles.Manager.Resolving.{resolve-delete_profile}
use headless_db_mcp.Profiles.Profile.{ConnectionProfile, ProfileError, ResolvedProfile, not_found}
use headless_db_mcp.Tools.Connect.{choose, names_credentials}
use headless_db_mcp.Tools.SavedProfiles.{deleted_answer, call_delete_connection_profile}
use headless_db_mcp.Tools.SavedProfiles.Agreeing.{named}
use headless_db_mcp.Tools.Support.{parse_arguments, profile_error_text}
use headless_db_mcp.Wire.JsonRpc.{Value}

abbrev pub no_such_profile : Text → McpToolError
no_such_profile name = failed (lit "no such connection profile: " ++ name)

choose-not_found :
    (resolves : Text → Result ResolvedProfile ProfileError) (name : Text)
    → resolves name ≡ err (not_found name)
    → choose (some resolves) (named name) ≡ err (no_such_profile name)
unfolding choose names_credentials profile_error_text
choose-not_found resolves name e = rw e refl

module _ {Disk Bytes S : Type 0} (files : Files Disk Bytes ConnectionProfile)
    (secrets : SecretStore S) (l : IsLawful files) where
  deleted-ok :
      (name : Text) (r : Result (Unit {0}) ProfileError) (answer : Value)
      → deleted_answer files secrets name r ≡ ok answer
      → r ≡ ok tt
  deleted-ok name (ok u) answer h = refl
  deleted-ok name (err e) answer h = cc

  -- Given that the file system and serde_json do what `IsLawful` says: after a call of
  -- `delete_connection_profile` that succeeded for a name, `connect` by that name is refused, since
  -- there is no such profile.
  pub call_delete_connection_profile-choose :
      (s : Stores Disk S) (from_value : Value → Result Text Text) (v : Value) (name : Text)
      → from_value v ≡ ok name
      → (answer : Value)
      → (call_delete_connection_profile files secrets from_value (some v) s).0 ≡ ok answer
      → choose
          (some (
            resolve files secrets
              (call_delete_connection_profile files secrets from_value (some v) s).1))
          (named name)
        ≡ err (no_such_profile name)
  unfolding call_delete_connection_profile parse_arguments
  call_delete_connection_profile-choose s from_value v name e answer h = rw e (
      choose-not_found _ name (
        resolve-delete_profile files secrets l s name
          (deleted-ok name (delete_profile files secrets s name).0 answer (rw e at h))))
