-- ===== src/Secrets/Tests.antt =====
-- A disk that holds the file itself, with a cipher that hides nothing.
use headless_db_mcp.JsonFile.{Files, read_file, write_file}
use headless_db_mcp.JsonFile.Laws.{IsLawful}
use headless_db_mcp.Prelude.{
  ℕ, false, ◌==◌, nat_eq, text_eq, Option, none, some, List, ◌≡◌, refl, sym, Text, codes, ok,
  if◌then◌else◌,
}
use headless_db_mcp.Secrets.FileStore.{
  StoredSecret, StoreFile, Outside, validate_key, encrypt, get_secret, file_with, file_without,
  set_secret, delete_secret,
}
use headless_db_mcp.Secrets.FileStore.RoundTrip.{IsCipher, set_secret-get, delete_secret-get}
use headless_db_mcp.Strings.{as_bytes, utf8_char}

abbrev memory_files : Files (Option StoreFile) StoreFile StoredSecret
memory_files = record {
  read = λ d. ok d;
  write_atomic = λ d f. (ok tt, some f);
  is_empty = λ f. false;
  from_slice = λ f. ok f;
  to_vec_pretty = λ f. ok f;
}

abbrev memory : Outside (Option StoreFile) StoreFile
memory = record {
  files = memory_files;
  encrypt_bytes = λ nonce plain. some plain;
  decrypt_bytes = λ nonce cipher. some cipher;
  base64_encode = λ bytes. bytes;
  base64_decode = λ t. some t;
  from_utf8 = λ bytes. some bytes;
}

memory_files-IsLawful : IsLawful memory_files
memory_files-IsLawful = record {
  written = λ d b h. refl;
  unwritten = λ d b e h. cc;
  nonempty = λ f b h. refl;
  parses = λ f b h. sym h;
}

memory-IsCipher : IsCipher memory
memory-IsCipher = record { decrypts = λ nonce plain cipher h. sym h; decodes = λ bytes. refl }

abbrev nonce : List ℕ
nonce = codes "twelve bytes"

abbrev key : Text
key = codes "profile:dev:password"

abbrev hunter : Text
hunter = codes "hunter2"

hunter-utf8 : memory.from_utf8 (as_bytes hunter) ≡ some hunter
unfolding as_bytes utf8_char
hunter-utf8 = refl

hunter-set : (set_secret memory nonce none key hunter).0 ≡ ok tt
unfolding set_secret file_with validate_key read_file encrypt write_file
hunter-set = refl

hunter-delete : (delete_secret memory (set_secret memory nonce none key hunter).1 key).0 ≡ ok tt
unfolding delete_secret file_without set_secret file_with validate_key read_file encrypt write_file
hunter-delete = refl

set_secret-get_example :
    get_secret memory (set_secret memory nonce none key hunter).1 key
    ≡ (if key == key then ok (some hunter) else get_secret memory none key)
set_secret-get_example =
    set_secret-get memory memory-IsCipher memory_files-IsLawful nonce none key hunter key refl
      hunter-utf8 hunter-set

delete_secret-get_example :
    get_secret memory (delete_secret memory (set_secret memory nonce none key hunter).1 key).1 key
    ≡ (if key == key
        then ok none
        else get_secret memory (set_secret memory nonce none key hunter).1 key)
delete_secret-get_example =
    delete_secret-get memory memory-IsCipher memory_files-IsLawful
      (set_secret memory nonce none key hunter).1 key key hunter-delete
