-- ===== src/Profiles/Memory.antt =====
-- The stores of profiles and of secrets in memory.
use headless_db_mcp.HashMap.{Map, get, insert, remove, get-insert_same}
use headless_db_mcp.JsonFile.{Files}
use headless_db_mcp.JsonFile.Laws.{IsLawful}
use headless_db_mcp.Prelude.{false, nat_eq, text_eq, some, [], refl, sym, ap, Text, ok}
use headless_db_mcp.Profiles.Manager.{SecretStore, Stores}
use headless_db_mcp.Profiles.Profile.{ConnectionProfile}
use headless_db_mcp.Profiles.Manager.Resolving.{IsKeeping}

abbrev pub profile_files :
    Files (Map Text ConnectionProfile) (Map Text ConnectionProfile) ConnectionProfile
profile_files = record {
  read = λ d. ok (some d);
  write_atomic = λ d f. (ok tt, f);
  is_empty = λ f. false;
  from_slice = λ f. ok f;
  to_vec_pretty = λ f. ok f;
}

pub profile_files-IsLawful : IsLawful profile_files
profile_files-IsLawful = record {
  written = λ d b h. refl;
  unwritten = λ d b e h. cc;
  nonempty = λ f b h. refl;
  parses = λ f b h. sym h;
}

abbrev pub vault : SecretStore (Map Text Text)
vault = record {
  secret = λ s key. ok (get key s);
  set = λ s key value. (ok tt, insert key value s);
  delete = λ s key. (ok tt, remove key s);
}

pub vault-IsKeeping : IsKeeping vault
vault-IsKeeping = record { sets = λ s key value h. ap ok (get-insert_same key value s) }

abbrev pub nothing : Stores (Map Text ConnectionProfile) (Map Text Text)
nothing = record { disk = []; secrets = [] }
