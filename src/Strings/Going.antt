-- ===== src/Strings/Going.antt =====
-- `split` on a text that goes on.
use headless_db_mcp.Prelude.{
  ℕ, false, ◌==◌, nat_eq, text_eq, List, [], ◌∷◌, ◌++◌, ◌≡◌, refl, sym, ap, ◌∙◌, inl, inr, Text,
  Bool-cases,
}
use headless_db_mcp.Strings.{extend_first, split}
use headless_db_mcp.Strings.Splits.{split-nonempty}

-- The pieces of a text that goes on: the last piece goes on.
abbrev pub pieces_then : ℕ → List Text → Text → List Text
pieces_then sep [] y = split sep y
pieces_then sep (last ∷ []) y = split sep (last ++ y)
pieces_then sep (piece ∷ next ∷ pieces) y = piece ∷ pieces_then sep (next ∷ pieces) y

pieces_then-extend_first :
    (sep c : ℕ) (p : Text) (ps : List Text) (y : Text)
    → (c == sep) ≡ false
    → pieces_then sep (extend_first c (p ∷ ps)) y ≡ extend_first c (pieces_then sep (p ∷ ps) y)
unfolding split
pieces_then-extend_first sep c p [] y h = rw h refl
pieces_then-extend_first sep c p (q ∷ qs) y h = refl

pub split-pieces_then :
    (sep : ℕ) (x y : Text) → split sep (x ++ y) ≡ pieces_then sep (split sep x) y
unfolding split
split-pieces_then sep [] y = refl
split-pieces_then sep (c ∷ s) y =
    let (p, ps, e) = split-nonempty sep s in
    let later = rw e at (split-pieces_then sep s y) in
    elim (Bool-cases (c == sep)) [
      | inl h ↦ rw (h, e) (ap (◌∷◌ []) later)
      | inr h ↦
          rw (h, e) (ap (extend_first c) later ∙ sym (pieces_then-extend_first sep c p ps y h))
    ]
