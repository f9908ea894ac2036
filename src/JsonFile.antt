-- ===== src/JsonFile.antt =====
-- A map in one JSON file, which `ProfileMetadataStore` and `EncryptedFileSecretStore` both keep, each
-- with its own copy of the code. The file system and serde_json are an interface.
pub mod Laws
use headless_db_mcp.HashMap.{Map}
use headless_db_mcp.Prelude.{
  zero, suc, Bool, nat_eq, text_eq, Option, none, some, [], arith, Text, Result, ok, err, map_err,
  if◌then◌else◌,
}

-- `read` gives no bytes if there is no file; `write_atomic` writes another file and renames it.
pub record Files (Disk Bytes A : Type 0) : Type 0 where
  pub read : Disk → Result (Option Bytes) Text
  pub write_atomic : Disk → Bytes → Result (Unit {0}) Text × Disk
  pub is_empty : Bytes → Bool
  pub from_slice : Bytes → Result (Map Text A) Text
  pub to_vec_pretty : Map Text A → Result Bytes Text

-- The errors of a store.
pub record Failures (E : Type 0) : Type 0 where
  pub io_failure : Text → E
  pub unparsed : Text → E
  pub unserialized : Text → E

module _ {Disk Bytes A E : Type 0} (files : Files Disk Bytes A) (failures : Failures E) where
  unfoldable pub file_of : Result (Option Bytes) Text → Result (Map Text A) E
  file_of (err e) = err (failures.io_failure e)
  file_of (ok none) = ok []
  file_of (ok (some bytes)) =
      if files.is_empty bytes then ok [] else map_err failures.unparsed (files.from_slice bytes)

  unfoldable pub read_file : Disk → Result (Map Text A) E
  unfolding file_of
  read_file disk = file_of (files.read disk)

  abbrev pub write_bytes : Disk → Result Bytes Text → Result (Unit {0}) E × Disk
  write_bytes disk (err e) = (err (failures.unserialized e), disk)
  write_bytes disk (ok bytes) =
      let (r, disk') = files.write_atomic disk bytes in (map_err failures.io_failure r, disk')

  unfoldable pub write_file : Disk → Map Text A → Result (Unit {0}) E × Disk
  write_file disk file = write_bytes disk (files.to_vec_pretty file)

  -- Writes the map that an operation made of the old one, if it made one.
  abbrev pub store : Disk → Result (Map Text A) E → Result (Unit {0}) E × Disk
  store disk (err e) = (err e, disk)
  store disk (ok file) = write_file disk file
