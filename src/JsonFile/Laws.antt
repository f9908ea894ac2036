-- ===== src/JsonFile/Laws.antt =====
-- What the file system and serde_json promise, and what follows for reading and writing.
use headless_db_mcp.HashMap.{Map}
use headless_db_mcp.JsonFile.{Files, Failures, file_of, read_file, write_bytes, write_file, store}
use headless_db_mcp.Prelude.{
  false, nat_eq, text_eq, some, ◌≡◌, refl, ap, Text, Result, ok, err, map_err,
}

-- A file that was written is there, one that failed to be written has left the old one; JSON is
-- never empty and parses back.
pub record IsLawful {Disk Bytes A : Type 0} (files : Files Disk Bytes A) : Type 0 where
  pub written :
      (d : Disk) (b : Bytes)
      → (files.write_atomic d b).0 ≡ ok tt
      → files.read (files.write_atomic d b).1 ≡ ok (some b)
  pub unwritten :
      (d : Disk) (b : Bytes) (e : Text)
      → (files.write_atomic d b).0 ≡ err e
      → files.read (files.write_atomic d b).1 ≡ files.read d
  pub nonempty :
      (f : Map Text A) (b : Bytes) → files.to_vec_pretty f ≡ ok b → files.is_empty b ≡ false
  pub parses :
      (f : Map Text A) (b : Bytes) → files.to_vec_pretty f ≡ ok b → files.from_slice b ≡ ok f

map_err-ok : {A E F : Type 0} (f : E → F) (r : Result A E) {a : A} → map_err f r ≡ ok a → r ≡ ok a
map_err-ok f (ok x) h = cc
map_err-ok f (err e) h = cc

map_err-err :
    {A E F : Type 0} (f : E → F) (r : Result A E) {y : F}
    → map_err f r ≡ err y
    → (e : E) × (r ≡ err e)
map_err-err f (ok x) h = cc
map_err-err f (err e) h = (e, refl)

module _ {Disk Bytes A E : Type 0} {files : Files Disk Bytes A} (failures : Failures E)
    (l : IsLawful files) where
  write_bytes-ok :
      (d : Disk) (f : Map Text A) (r : Result Bytes Text)
      → files.to_vec_pretty f ≡ r
      → (write_bytes files failures d r).0 ≡ ok tt
      → read_file files failures (write_bytes files failures d r).1 ≡ ok f
  unfolding read_file file_of
  write_bytes-ok d f (err e) p h = cc
  write_bytes-ok d f (ok b) p h =
      rw (l.written d b (map_err-ok failures.io_failure _ h))
        (rw (l.nonempty f b p, l.parses f b p) refl)

  write_bytes-err :
      (d : Disk) (r : Result Bytes Text) (e : E)
      → (write_bytes files failures d r).0 ≡ err e
      → read_file files failures (write_bytes files failures d r).1 ≡ read_file files failures d
  unfolding read_file
  write_bytes-err d (err x) e h = refl
  write_bytes-err d (ok b) e h =
      let (x, p) = map_err-err failures.io_failure _ h in
      ap (file_of files failures) (l.unwritten d b x p)

  pub store-ok :
      (d : Disk) (r : Result (Map Text A) E)
      → (store files failures d r).0 ≡ ok tt
      → (f : Map Text A) × (r ≡ ok f)
        × (read_file files failures (store files failures d r).1 ≡ ok f)
  unfolding write_file
  store-ok d (err e) h = cc
  store-ok d (ok f) h = (f, refl, write_bytes-ok d f (files.to_vec_pretty f) refl h)

  pub store-err :
      (d : Disk) (r : Result (Map Text A) E) (e : E)
      → (store files failures d r).0 ≡ err e
      → read_file files failures (store files failures d r).1 ≡ read_file files failures d
  unfolding write_file
  store-err d (err x) e h = refl
  store-err d (ok f) e h = write_bytes-err d (files.to_vec_pretty f) e h
