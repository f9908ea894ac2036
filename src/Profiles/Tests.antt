-- ===== src/Profiles/Tests.antt =====
-- A profile that is saved, with stores in memory.
use headless_db_mcp.Core.{required}
use headless_db_mcp.HashMap.{get}
use headless_db_mcp.JsonFile.{read_file, write_file}
use headless_db_mcp.Prelude.{true, nat_eq, text_eq, none, some, ◌≡◌, refl, codes, ok}
use headless_db_mcp.Profiles.Manager.{secret_key, validate_name, get_profile, upsert, save, resolve}
use headless_db_mcp.Profiles.Memory.{
  profile_files, profile_files-IsLawful, vault, vault-IsKeeping, nothing,
}
use headless_db_mcp.Profiles.Profile.{SaveProfileParams, choose_read_only}
use headless_db_mcp.Profiles.Manager.Resolving.{saved_config, or_old, resolve-save}

abbrev dev : SaveProfileParams
dev = record {
  name = codes "dev";
  database_type = codes "PostgreSQL";
  host = codes "localhost";
  port = 5432;
  username = codes "me";
  password = some (codes "hunter2");
  database = none;
  ssl_mode = some required;
  read_only = some true;
}

dev-get_profile : get_profile profile_files vault nothing.disk dev.name ≡ ok none
unfolding get_profile read_file get
dev-get_profile = refl

dev-secret : vault.secret nothing.secrets (secret_key dev.name) ≡ ok none
unfolding get
dev-secret = refl

dev-save : (save profile_files vault 1 nothing dev).0 ≡ ok tt
unfolding save validate_name get_profile read_file upsert write_file
dev-save = refl

resolve-save_example :
    resolve profile_files vault (save profile_files vault 1 nothing dev).1 dev.name
    ≡ ok (record {
      database_type = dev.database_type;
      config = saved_config dev (choose_read_only dev.read_only none) (or_old dev.password none);
    })
resolve-save_example =
    resolve-save profile_files vault profile_files-IsLawful vault-IsKeeping 1 nothing dev none none
      dev-get_profile dev-secret dev-save
