-- ===== src/ClickHouse/Tsv/Unescaping.antt =====
-- The backslash escapes of ClickHouse's format, and `unescape_text`.
use headless_db_mcp.ClickHouse.Tsv.{unescaped, unescape_text, parse_data_cell}
use headless_db_mcp.Core.{CellValue, null, text}
use headless_db_mcp.Prelude.{
  ℕ, ◌==◌, nat_eq, text_eq, text_beq_iff, false, [], ◌∷◌, ◌≡◌, ◌≢◌, refl, ap, arith, Text, codes,
  ◌⊎◌, inl, inr, Bool-cases,
}
use headless_db_mcp.Strings.Splits.{Lacks}

-- The escape `\d` for the character `c`, as ClickHouse documents the format: a letter for a control
-- character, or a character that stands for itself.
abbrev pub Escape : ℕ → ℕ → Type 0
Escape d c =
    (d ≡ b't') × (c ≡ b'\t')
    ⊎ (d ≡ b'n') × (c ≡ b'\n')
    ⊎ (d ≡ b'r') × (c ≡ b'\r')
    ⊎ (d ≡ b'0') × (c ≡ 0x00)
    ⊎ (d ≡ b'b') × (c ≡ 0x08)
    ⊎ (d ≡ b'f') × (c ≡ 0x0c)
    ⊎ (d ≡ b'\\') × (c ≡ b'\\')
    ⊎ (d ≡ b'\'') × (c ≡ b'\'')

-- A character that may stand in a cell as it is.
abbrev pub IsPlain : ℕ → Type 0
IsPlain c = ((c == b'\\') ≡ false) × ((c == b'\t') ≡ false) × ((c == b'\n') ≡ false)

-- `raw` is a rendering of the text.
pub data Renders : Text → Text → Type 0 where
  done : Renders [] []
  plain : {c : ℕ} {s raw : Text} → IsPlain c → Renders s raw → Renders (c ∷ s) (c ∷ raw)
  escape :
      {b d c : ℕ} {s raw : Text}
      → b ≡ b'\\'
      → Escape d c
      → Renders s raw
      → Renders (c ∷ s) (b ∷ d ∷ raw)

unescaped-Escape : (d c : ℕ) → Escape d c → unescaped d ≡ c
unescaped-Escape d c h = ground arith

unescape_text-copied :
    (c : ℕ) (raw : Text) → (c == b'\\') ≡ false → unescape_text (c ∷ raw) ≡ c ∷ unescape_text raw
unfolding unescape_text
unescape_text-copied c [] h = rw h
unescape_text-copied c (d ∷ raw) h = rw h

unescape_text-escape :
    (b d : ℕ) (raw : Text)
    → b ≡ b'\\'
    → unescape_text (b ∷ d ∷ raw) ≡ unescaped d ∷ unescape_text raw
unfolding unescape_text
unescape_text-escape b d raw h = rw h

-- Any rendering of a text, each character as it is or by its escape, is read back as the text.
pub unescape_text-Renders : {s raw : Text} → Renders s raw → unescape_text raw ≡ s
unescape_text-Renders done = unfold unescape_text in refl
unescape_text-Renders (plain {c} {s} {raw} h r) =
    rw (unescape_text-copied c raw h.0, unescape_text-Renders r)
unescape_text-Renders (escape {b} {d} {c} {s} {raw} e h r) =
    rw (unescape_text-escape b d raw e, unescape_text-Renders r, unescaped-Escape d c h)

-- A rendering holds neither of the separators.
Escape-Lacks :
    (b d c : ℕ)
    → b ≡ b'\\'
    → Escape d c
    → ((b == b'\t') ≡ false)
      × ((b == b'\n') ≡ false)
      × ((d == b'\t') ≡ false)
      × ((d == b'\n') ≡ false)
Escape-Lacks b d c e h = ground arith

pub Renders-Lacks : {s raw : Text} → Renders s raw → Lacks b'\t' raw × Lacks b'\n' raw
Renders-Lacks done = (tt, tt)
Renders-Lacks (plain h r) = let (t, n) = Renders-Lacks r in ((h.1, t), (h.2, n))
Renders-Lacks (escape {b} {d} {c} e h r) =
    let (t, n) = Renders-Lacks r in
    let (bt, bn, dt, dn) = Escape-Lacks b d c e h in ((bt, (dt, t)), (bn, (dn, n)))

-- A NULL is written `\N`, which renders no text.
pub data RendersCell : CellValue → Text → Type 0 where
  is_null : {raw : Text} → raw ≡ codes "\\N" → RendersCell null raw
  is_text : {s raw : Text} → Renders s raw → RendersCell (text s) raw

Renders-ne-null : {s raw : Text} → Renders s raw → raw ≢ codes "\\N"
Renders-ne-null done e = ground arith
Renders-ne-null (plain h r) e = ground arith
Renders-ne-null (escape b h r) e = ground arith

pub parse_data_cell-Renders :
    {v : CellValue} {raw : Text} → RendersCell v raw → parse_data_cell raw ≡ v
unfolding parse_data_cell
parse_data_cell-Renders (is_null {raw} e) = rw ((text_beq_iff raw (codes "\\N")).1 e)
parse_data_cell-Renders (is_text {s} {raw} r) = elim (Bool-cases (raw == codes "\\N")) [
  | inl e ↦ absurd (Renders-ne-null r ((text_beq_iff raw _).0 e))
  | inr e ↦ rw e (ap text (unescape_text-Renders r))
]

pub RendersCell-Lacks :
    {v : CellValue} {raw : Text} → RendersCell v raw → Lacks b'\t' raw × Lacks b'\n' raw
RendersCell-Lacks (is_null e) = rw e ((refl, (refl, tt)), (refl, (refl, tt)))
RendersCell-Lacks (is_text r) = Renders-Lacks r
