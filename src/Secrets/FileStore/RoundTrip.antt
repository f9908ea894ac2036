-- ===== src/Secrets/FileStore/RoundTrip.antt =====
-- `set`, `delete` and what `get` gives after them.
use headless_db_mcp.HashMap.{
  get, insert, remove, get-insert_same, get-insert_other, get-remove_same, get-remove_other,
}
use headless_db_mcp.JsonFile.{read_file}
use headless_db_mcp.JsonFile.Laws.{IsLawful, store-ok, store-err}
use headless_db_mcp.Prelude.{
  ok-injective, ℕ, true, ◌==◌, nat_eq, text_eq, text_beq_iff, Option, none, some, List, ◌≡◌, refl,
  sym, ◌∙◌, inl, inr, Text, length, ok, err, ◌>>◌, ok_or, if◌then◌else◌, Bool-cases, >>=-eq-ok,
}
use headless_db_mcp.Secrets.FileStore.{
  SecretError, StoredSecret, StoreFile, nonce_len_bytes, Outside, failures, validate_key, encrypt,
  decrypt, reveal, get_secret, file_with, file_without, set_secret, delete_secret,
}
use headless_db_mcp.Strings.{as_bytes}

-- Base64 decodes, and so does what was encrypted under the same nonce.
pub record IsCipher {Disk Bytes : Type 0} (o : Outside Disk Bytes) : Type 0 where
  pub decrypts :
      (nonce plain cipher : List ℕ)
      → o.encrypt_bytes nonce plain ≡ some cipher
      → o.decrypt_bytes nonce cipher ≡ some plain
  pub decodes : (bytes : List ℕ) → o.base64_decode (o.base64_encode bytes) ≡ some bytes

ok_or-ok : {A E : Type 0} (x : Option A) (e : E) {a : A} → ok_or x e ≡ ok a → x ≡ some a
ok_or-ok none e h = cc
ok_or-ok (some b) e h = cc

module _ {Disk Bytes : Type 0} (o : Outside Disk Bytes) (c : IsCipher o)
    (l : IsLawful o.files) where
  get_secret-cong :
      (d d' : Disk) (key : Text)
      → read_file o.files failures d ≡ read_file o.files failures d'
      → get_secret o d key ≡ get_secret o d' key
  unfolding get_secret
  get_secret-cong d d' key h = rw h refl

  get_secret-read :
      (d : Disk) (key : Text) (f : StoreFile)
      → read_file o.files failures d ≡ ok f
      → get_secret o d key ≡ (validate_key key >> reveal o key (get key f))
  unfolding get_secret
  get_secret-read d key f h = rw h refl

  decrypt_stored :
      (nonce : List ℕ) (key : Text) (plain cipher : List ℕ)
      → (length nonce == nonce_len_bytes) ≡ true
      → o.encrypt_bytes nonce plain ≡ some cipher
      → decrypt o key
          (record { nonce = o.base64_encode nonce; ciphertext = o.base64_encode cipher })
        ≡ ok plain
  unfolding decrypt
  decrypt_stored nonce key plain cipher n e =
      rw (c.decodes nonce, c.decodes cipher, n, c.decrypts nonce plain cipher e) refl

  reveal-encrypt :
      (nonce : List ℕ) (key value : Text) (stored : StoredSecret)
      → (length nonce == nonce_len_bytes) ≡ true
      → o.from_utf8 (as_bytes value) ≡ some value
      → encrypt o nonce key (as_bytes value) ≡ ok stored
      → reveal o key (some stored) ≡ ok (some value)
  unfolding reveal encrypt
  reveal-encrypt nonce key value stored n u h =
      let (cipher, e, s) = >>=-eq-ok (ok_or (o.encrypt_bytes nonce (as_bytes value)) _) _ h in
      let made = decrypt_stored nonce key (as_bytes value) cipher n (ok_or-ok _ _ e) in
      rw (sym (ok-injective s)) (rw made (rw u refl))

  file_with-ok :
      (nonce : List ℕ) (key value : Text) (d : Disk) (f : StoreFile)
      → file_with o nonce key value d ≡ ok f
      → (validate_key key ≡ ok tt)
        × ((file : StoreFile) × (stored : StoredSecret) × (read_file o.files failures d ≡ ok file)
            × (encrypt o nonce key (as_bytes value) ≡ ok stored)
            × (insert key stored file ≡ f))
  unfolding file_with
  file_with-ok nonce key value d f h =
      let (u, v, a) = >>=-eq-ok (validate_key key) _ h in
      let (file, r, b) = >>=-eq-ok (read_file o.files failures d) _ a in
      let (stored, e, c) = >>=-eq-ok (encrypt o nonce key (as_bytes value)) _ b in
      (v, (file, stored, r, e, ok-injective c))

  file_without-ok :
      (key : Text) (d : Disk) (f : StoreFile)
      → file_without o key d ≡ ok f
      → (validate_key key ≡ ok tt)
        × ((file : StoreFile) × (read_file o.files failures d ≡ ok file) × (remove key file ≡ f))
  unfolding file_without
  file_without-ok key d f h =
      let (u, v, a) = >>=-eq-ok (validate_key key) _ h in
      let (file, r, b) = >>=-eq-ok (read_file o.files failures d) _ a in
      (v, (file, r, ok-injective b))

  reveal-none : (key : Text) → reveal o key none ≡ ok none
  unfolding reveal
  reveal-none key = refl

  -- Given that the libraries do what `IsCipher` and `IsLawful` say: after a `set` that succeeded,
  -- with a nonce of twelve bytes and a value that UTF-8 decoding gives back, its key has the value
  -- and every other key what it had.
  pub set_secret-get :
      (nonce : List ℕ) (d : Disk) (key value other : Text)
      → (length nonce == nonce_len_bytes) ≡ true
      → o.from_utf8 (as_bytes value) ≡ some value
      → (set_secret o nonce d key value).0 ≡ ok tt
      → get_secret o (set_secret o nonce d key value).1 other
        ≡ (if key == other then ok (some value) else get_secret o d other)
  unfolding set_secret
  set_secret-get nonce d key value other n u h =
      let (f, made, now) = store-ok failures l d (file_with o nonce key value d) h in
      let (v, (file, stored, r, e, i)) = file_with-ok nonce key value d f made in
      get_secret-read _ other f now
      ∙ rw (← i) (elim (Bool-cases (key == other)) [
        | inl s ↦ rw s (
            rw (sym ((text_beq_iff key other).0 s), get-insert_same key stored file, v)
              (reveal-encrypt nonce key value stored n u e))
        | inr s ↦
            rw s
              (rw (get-insert_other key other stored file s) (sym (get_secret-read d other file r)))
      ])

  -- Given that the libraries do what `IsCipher` and `IsLawful` say: after a `delete` that
  -- succeeded, its key has no value and every other key what it had.
  pub delete_secret-get :
      (d : Disk) (key other : Text)
      → (delete_secret o d key).0 ≡ ok tt
      → get_secret o (delete_secret o d key).1 other
        ≡ (if key == other then ok none else get_secret o d other)
  unfolding delete_secret
  delete_secret-get d key other h =
      let (f, made, now) = store-ok failures l d (file_without o key d) h in
      let (v, (file, r, i)) = file_without-ok key d f made in
      get_secret-read _ other f now
      ∙ rw (← i) (elim (Bool-cases (key == other)) [
        | inl s ↦
            rw s (
              rw (sym ((text_beq_iff key other).0 s), get-remove_same key file, v)
                (reveal-none key))
        | inr s ↦
            rw s (rw (get-remove_other key other file s) (sym (get_secret-read d other file r)))
      ])

  -- Given that the libraries do what `IsCipher` and `IsLawful` say: a `set` that failed has changed
  -- no key, and so not its own either.
  pub set_secret-err :
      (nonce : List ℕ) (d : Disk) (key value other : Text) (e : SecretError)
      → (set_secret o nonce d key value).0 ≡ err e
      → get_secret o (set_secret o nonce d key value).1 other ≡ get_secret o d other
  unfolding set_secret
  set_secret-err nonce d key value other e h =
      get_secret-cong _ d other (store-err failures l d (file_with o nonce key value d) e h)
