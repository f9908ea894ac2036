-- ===== src/Secrets/FileStore.antt =====
-- crates/secrets/src/file_store.rs: the encrypted store in one JSON file. The file, serde_json, the
-- cipher under its master key, base64 and UTF-8 decoding are an interface, since they are libraries.
pub mod RoundTrip
use headless_db_mcp.HashMap.{Map, get, insert, remove}
use headless_db_mcp.JsonFile.{Files, Failures, read_file, store}
use headless_db_mcp.Prelude.{
  String, ℕ, zero, suc, not, ◌==◌, nat_eq, text_eq, Option, none, some, List, [], ◌∷◌, ◌++◌, arith,
  Text, lit, length, Result, ok, err, ◌>>=◌, ◌>>◌, ok_or, if◌then◌else◌,
}
use headless_db_mcp.Strings.{as_bytes}

-- `missing_master_key` and `invalid_master_key` come up before there is a store.
pub data SecretError : Type 0 where
  io_failure : Text → SecretError
  missing_master_key : SecretError
  invalid_master_key : Text → SecretError
  empty_key : SecretError
  encryption_failed decryption_failed corrupted : Text → SecretError

-- Both in base64.
pub record StoredSecret : Type 0 where
  pub nonce : Text
  pub ciphertext : Text

abbrev pub StoreFile : Type 0
StoreFile = Map Text StoredSecret

abbrev pub nonce_len_bytes : ℕ
nonce_len_bytes = 12

-- What the store takes from libraries: the file, the cipher under the master key, base64 and UTF-8.
pub record Outside (Disk Bytes : Type 0) : Type 0 where
  pub files : Files Disk Bytes StoredSecret
  pub encrypt_bytes : List ℕ → List ℕ → Option (List ℕ)
  pub decrypt_bytes : List ℕ → List ℕ → Option (List ℕ)
  pub base64_encode : List ℕ → Text
  pub base64_decode : Text → Option (List ℕ)
  pub from_utf8 : List ℕ → Option Text

abbrev pub failures : Failures SecretError
failures = record {
  io_failure = io_failure;
  unparsed = λ e. corrupted (lit "failed to parse secret store file: " ++ e);
  unserialized = λ e. corrupted (lit "failed to serialize secret store file: " ++ e);
}

unfoldable pub about_key : String → Text → String → Text
about_key before key after = lit before ++ (key ++ lit after)

unfoldable pub validate_key : Text → Result (Unit {0}) SecretError
validate_key [] = err empty_key
validate_key (c ∷ key) = ok tt

module _ {Disk Bytes : Type 0} (o : Outside Disk Bytes) where
  -- `nonce` is the fresh random one.
  unfoldable pub encrypt : List ℕ → Text → List ℕ → Result StoredSecret SecretError
  encrypt nonce key plaintext = do
    ciphertext ← ok_or (o.encrypt_bytes nonce plaintext) (encryption_failed key)
    ok (record { nonce = o.base64_encode nonce; ciphertext = o.base64_encode ciphertext })

  abbrev pub check_nonce : Text → List ℕ → Result (Unit {0}) SecretError
  check_nonce key nonce =
      if length nonce == nonce_len_bytes
      then ok tt
      else err (corrupted (about_key "nonce for key '" key "' has the wrong length"))

  unfoldable pub decrypt : Text → StoredSecret → Result (List ℕ) SecretError
  decrypt key stored = do
    nonce ←
        ok_or (o.base64_decode stored.nonce)
          (corrupted (about_key "nonce for key '" key "' is not valid base64"))
    ciphertext ←
        ok_or (o.base64_decode stored.ciphertext)
          (corrupted (about_key "ciphertext for key '" key "' is not valid base64"))
    check_nonce key nonce
    ok_or (o.decrypt_bytes nonce ciphertext) (decryption_failed key)

  unfoldable pub reveal : Text → Option StoredSecret → Result (Option Text) SecretError
  reveal key none = ok none
  reveal key (some stored) = do
    plaintext ← decrypt key stored
    text ← ok_or (o.from_utf8 plaintext) (decryption_failed key)
    ok (some text)

  unfoldable pub get_secret : Disk → Text → Result (Option Text) SecretError
  get_secret disk key = do
    validate_key key
    file ← read_file o.files failures disk
    reveal key (get key file)

  unfoldable pub file_with : List ℕ → Text → Text → Disk → Result StoreFile SecretError
  file_with nonce key value disk = do
    validate_key key
    file ← read_file o.files failures disk
    stored ← encrypt nonce key (as_bytes value)
    ok (insert key stored file)

  unfoldable pub file_without : Text → Disk → Result StoreFile SecretError
  file_without key disk = do
    validate_key key
    file ← read_file o.files failures disk
    ok (remove key file)

  unfoldable pub set_secret : List ℕ → Disk → Text → Text → Result (Unit {0}) SecretError × Disk
  set_secret nonce disk key value = store o.files failures disk (file_with nonce key value disk)

  unfoldable pub delete_secret : Disk → Text → Result (Unit {0}) SecretError × Disk
  delete_secret disk key = store o.files failures disk (file_without key disk)
