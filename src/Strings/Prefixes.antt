-- ===== src/Strings/Prefixes.antt =====
-- What a prefix that was found says of the text.
use headless_db_mcp.Prelude.{
  ◌==◌, nat_eq, text_eq, nat_beq_iff, nat_beq_refl, Option, none, some, [], ◌∷◌, ◌++◌, ◌≡◌, refl,
  sym, inl, inr, Text, Bool-cases,
}
use headless_db_mcp.Strings.{strip_prefix}

pub strip_prefix_sound :
    (prefix s rest : Text) → strip_prefix prefix s ≡ some rest → s ≡ prefix ++ rest
unfolding strip_prefix
strip_prefix_sound [] s rest e = cc
strip_prefix_sound (p ∷ prefix) [] rest e = cc
strip_prefix_sound (p ∷ prefix) (c ∷ s) rest e = elim (Bool-cases (p == c)) [
  | inl f ↦
      let same : p ≡ c = (nat_beq_iff p c).0 f in
      rw (sym same, strip_prefix_sound prefix s rest (rw f at e))
  | inr f ↦ let none_some : ◌≡◌ {A = Option Text} none (some rest) = rw f at e in cc
]

pub strip_prefix-append : (prefix s : Text) → strip_prefix prefix (prefix ++ s) ≡ some s
unfolding strip_prefix
strip_prefix-append [] s = refl
strip_prefix-append (p ∷ prefix) s = rw (nat_beq_refl p, strip_prefix-append prefix s) refl
