-- ===== src/Redis/Keys/Widths.antt =====
-- Every row that a stream yields has a cell for each column of its header.
use headless_db_mcp.Core.{CellValue, DriverError, query}
use headless_db_mcp.Strings.Utf8.{from_utf8_lossy}
use headless_db_mcp.Prelude.{
  ℕ, suc, ◌==◌, nat_eq, text_eq, List, [], ◌∷◌, map, ◌≡◌, refl, sym, ap, ◌∙◌, inl, inr, All,
  All-append, Text, codes, length, Result, ok, err, map_err, Bool-cases, >>=-eq-ok, ok-injective,
  err-ne-ok,
}
use headless_db_mcp.Redis.Query.{Client}
use headless_db_mcp.Redis.Reply.{Reply, flat_pairs, array_items, map_error}
use headless_db_mcp.Redis.Schema.{column_names}
use headless_db_mcp.Redis.Keys.{
  indexed_rows, entry_row, rows_of, fetch_with, fetch_rows_for_key, fetch_batch, append_rows,
}

-- Each row has `n` cells.
abbrev pub HaveWidth : ℕ → List (List CellValue) → Type 0
HaveWidth n = All (λ row. length row ≡ n)

map-HaveWidth :
    {A : Type 0} (n : ℕ) (f : A → List CellValue) (items : List A)
    → ((a : A) → length (f a) ≡ n)
    → HaveWidth n (map f items)
map-HaveWidth n f [] h = tt
map-HaveWidth n f (a ∷ rest) h = (h a, map-HaveWidth n f rest h)

module _ {Cmd S : Type 0} (client : Client Cmd S) (to_lowercase quoted : Text → Text) where
  indexed-HaveWidth :
      (key : Text) (i : ℕ) (items : List Reply)
      → HaveWidth 3 (indexed_rows client to_lowercase quoted key i items)
  indexed-HaveWidth key i [] = tt
  indexed-HaveWidth key i (item ∷ items) = (refl, indexed-HaveWidth key (suc i) items)

  entry_width :
      (key : Text) (items : List Reply)
      → length (entry_row client to_lowercase quoted key items) ≡ 3
  entry_width key [] = refl
  entry_width key (id ∷ []) = refl
  entry_width key (id ∷ fields ∷ rest) = refl

  -- The width that the header of a pseudo-table announces.
  abbrev Announces : Text → ℕ → Type 0
  Announces table n =
      (names : List Text) × (column_names quoted table ≡ ok names) × (length names ≡ n)

  -- The goal of the next lemma, from the command and the rows of the pseudo-table.
  module _ (table : Text) (c : Cmd) (shape : Reply → List (List CellValue)) where
    abbrev Wide : Type 0
    Wide = (n : ℕ) × Announces table n × ((v : Reply) → HaveWidth n (shape v))

    wide :
        (n : ℕ) (names : List Text) {c' : Cmd} {shape' : Reply → List (List CellValue)}
        → ◌≡◌ {A = Result (Cmd × (Reply → List (List CellValue))) DriverError}
            (ok (c', shape'))
            (ok (c, shape))
        → column_names quoted table ≡ ok names
        → length names ≡ n
        → ((v : Reply) → HaveWidth n (shape' v))
        → Wide
    wide n names e k l h = (n, (names, k, l), λ v. rw (← ap (λ p. p.1) (ok-injective e)) (h v))

  rows_of-Wide :
      (table : Text) (key : List ℕ) (key_text : Text) (c : Cmd)
      (shape : Reply → List (List CellValue))
      → rows_of client to_lowercase quoted table key key_text ≡ ok (c, shape)
      → Wide table c shape
  unfolding rows_of column_names
  rows_of-Wide table key key_text c shape h = elim (Bool-cases (table == codes "string")) [
    | inl s ↦
        wide table c shape 2 (codes "key" ∷ codes "value" ∷ []) (rw s at h) (rw s refl) refl
          (λ v. (refl, tt))
    | inr s ↦ elim (Bool-cases (table == codes "hash")) [
      | inl a ↦
          wide table c shape 3 (codes "key" ∷ codes "field" ∷ codes "value" ∷ []) (rw (s, a) at h)
            (rw (s, a) refl) refl (λ v. map-HaveWidth 3 _ (flat_pairs v) λ p. refl)
      | inr a ↦ elim (Bool-cases (table == codes "list")) [
        | inl b ↦
            wide table c shape 3 (codes "key" ∷ codes "index" ∷ codes "value" ∷ [])
              (rw (s, a, b) at h) (rw (s, a, b) refl) refl
              (λ v. indexed-HaveWidth key_text 0 (array_items v))
        | inr b ↦ elim (Bool-cases (table == codes "set")) [
          | inl d ↦
              wide table c shape 2 (codes "key" ∷ codes "member" ∷ []) (rw (s, a, b, d) at h)
                (rw (s, a, b, d) refl) refl (λ v. map-HaveWidth 2 _ (array_items v) λ m. refl)
          | inr d ↦ elim (Bool-cases (table == codes "zset")) [
            | inl f ↦
                wide table c shape 3 (codes "key" ∷ codes "member" ∷ codes "score" ∷ [])
                  (rw (s, a, b, d, f) at h) (rw (s, a, b, d, f) refl) refl
                  (λ v. map-HaveWidth 3 _ (flat_pairs v) λ p. refl)
            | inr f ↦ elim (Bool-cases (table == codes "stream")) [
              | inl g ↦
                  wide table c shape 3 (codes "key" ∷ codes "id" ∷ codes "fields" ∷ [])
                    (rw (s, a, b, d, f, g) at h) (rw (s, a, b, d, f, g) refl) refl
                    (λ v.
                      map-HaveWidth 3 _ (array_items v) λ e. entry_width key_text (array_items e))
              | inr g ↦ absurd (err-ne-ok (rw (s, a, b, d, f, g) at h))
            ]
          ]
        ]
      ]
    ]
  ]

  module _ (table : Text) (names : List Text) (known : column_names quoted table ≡ ok names) where
    rows_of-HaveWidth :
        (key : List ℕ) (key_text : Text) (c : Cmd) (shape : Reply → List (List CellValue))
        → rows_of client to_lowercase quoted table key key_text ≡ ok (c, shape)
        → (v : Reply) → HaveWidth (length names) (shape v)
    rows_of-HaveWidth key key_text c shape h v =
        let (n, (others, k, l), w) = rows_of-Wide table key key_text c shape h in
        let same : others ≡ names = ok-injective (sym k ∙ known) in
        let width : length names ≡ n = ap (length {0}) (sym same) ∙ l in rw width (w v)

    fetch_with-HaveWidth :
        (key : List ℕ) (key_text : Text)
        (r : Result (Cmd × (Reply → List (List CellValue))) DriverError) (s : S)
        (batch : List (List CellValue))
        → rows_of client to_lowercase quoted table key key_text ≡ r
        → (fetch_with client to_lowercase quoted r s).0 ≡ ok batch
        → HaveWidth (length names) batch
    fetch_with-HaveWidth key key_text (err e) s batch p h = cc
    fetch_with-HaveWidth key key_text (ok (c, shape)) s batch p h =
        let (value, answered, made) =
          >>=-eq-ok (map_err (map_error query) (client.query_async c s).0) _ h in
        rw (← ok-injective made) (rows_of-HaveWidth key key_text c shape p value)

    fetch_rows_for_key-HaveWidth :
        (key : List ℕ) (s : S) (batch : List (List CellValue))
        → (fetch_rows_for_key client to_lowercase quoted table key s).0 ≡ ok batch
        → HaveWidth (length names) batch
    unfolding fetch_rows_for_key
    fetch_rows_for_key-HaveWidth key s batch h =
        fetch_with-HaveWidth key (from_utf8_lossy key) _ s batch refl h

    append_rows-HaveWidth :
        (r : Result (List (List CellValue)) DriverError)
        (later : Result (List (List CellValue)) DriverError × S) (s : S)
        (batch : List (List CellValue))
        → ((b : List (List CellValue)) → r ≡ ok b → HaveWidth (length names) b)
        → ((b : List (List CellValue)) → later.0 ≡ ok b → HaveWidth (length names) b)
        → (append_rows client to_lowercase quoted r later s).0 ≡ ok batch
        → HaveWidth (length names) batch
    append_rows-HaveWidth (err e) later s batch f g h = cc
    append_rows-HaveWidth (ok first) (err e, s') s batch f g h = cc
    append_rows-HaveWidth (ok first) (ok more, s') s batch f g h =
        rw (← ok-injective h) (All-append _ first more (f first refl) (g more refl))

    pub fetch_batch-HaveWidth :
        (keys : List (List ℕ)) (s : S) (batch : List (List CellValue))
        → (fetch_batch client to_lowercase quoted table keys s).0 ≡ ok batch
        → HaveWidth (length names) batch
    unfolding fetch_batch
    fetch_batch-HaveWidth [] s batch h = rw (← ok-injective h) tt
    fetch_batch-HaveWidth (key ∷ keys) s batch h =
        let (r, s') = fetch_rows_for_key client to_lowercase quoted table key s in
        append_rows-HaveWidth r (fetch_batch client to_lowercase quoted table keys s') s' batch
          (fetch_rows_for_key-HaveWidth key s) (fetch_batch-HaveWidth keys s') h
