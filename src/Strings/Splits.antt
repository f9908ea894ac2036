-- ===== src/Strings/Splits.antt =====
-- `split` and `join` undo one another.
use headless_db_mcp.Prelude.{
  ℕ, false, ◌==◌, nat_eq, nat_beq_iff, nat_beq_refl, List, [], ◌∷◌, ◌++◌, ◌≡◌, refl, ap, sym, ◌∙◌,
  arith, All, Text, Bool-cases, inl, inr,
}
use headless_db_mcp.Strings.{extend_first, split, join}

-- No character of the text is `sep`.
abbrev pub Lacks : ℕ → Text → Type 0
Lacks sep s = All (λ c. (c == sep) ≡ false) s

pub split-Lacks : (sep : ℕ) (s : Text) → Lacks sep s → split sep s ≡ s ∷ []
unfolding split
split-Lacks sep [] h = refl
split-Lacks sep (c ∷ s) h = rw (h.0, split-Lacks sep s h.1)

pub split-append :
    (sep : ℕ) (s rest : Text) → Lacks sep s → split sep (s ++ (sep ∷ rest)) ≡ s ∷ split sep rest
unfolding split
split-append sep [] rest h = rw (nat_beq_refl sep)
split-append sep (c ∷ s) rest h = rw (h.0, split-append sep s rest h.1)

pub split-join :
    (sep : ℕ) (piece : Text) (pieces : List Text)
    → All (Lacks sep) (piece ∷ pieces)
    → split sep (join sep (piece ∷ pieces)) ≡ piece ∷ pieces
unfolding join
split-join sep piece [] h = split-Lacks sep piece h.0
split-join sep piece (next ∷ pieces) h =
    split-append sep piece _ h.0 ∙ ap (◌∷◌ piece) (split-join sep next pieces h.1)

-- The pieces of a text lack the separator, and there is at least one.
extend_first-Lacks :
    (sep c : ℕ) (ps : List Text)
    → (c == sep) ≡ false
    → All (Lacks sep) ps
    → All (Lacks sep) (extend_first c ps)
extend_first-Lacks sep c [] e h = ((e, tt), tt)
extend_first-Lacks sep c (p ∷ ps) e h = ((e, h.0), h.1)

pub split-All-Lacks : (sep : ℕ) (s : Text) → All (Lacks sep) (split sep s)
unfolding split
split-All-Lacks sep [] = (tt, tt)
split-All-Lacks sep (c ∷ s) = elim (Bool-cases (c == sep)) [
  | inl e ↦ rw e (tt, split-All-Lacks sep s)
  | inr e ↦ rw e (extend_first-Lacks sep c (split sep s) e (split-All-Lacks sep s))
]

pub split-nonempty : (sep : ℕ) (s : Text) → (p : Text) × (ps : List Text) × (split sep s ≡ p ∷ ps)
unfolding split
split-nonempty sep [] = ([], [], refl)
split-nonempty sep (c ∷ s) =
    let (p, ps, e) = split-nonempty sep s in
    elim (Bool-cases (c == sep)) [
      | inl h ↦ ([], split sep s, rw h)
      | inr h ↦ (c ∷ p, ps, rw (h, e))
    ]

join-extend_first :
    (sep c : ℕ) (p : Text) (ps : List Text)
    → join sep (extend_first c (p ∷ ps)) ≡ c ∷ join sep (p ∷ ps)
unfolding join
join-extend_first sep c p [] = refl
join-extend_first sep c p (q ∷ ps) = refl

pub join-split : (sep : ℕ) (s : Text) → join sep (split sep s) ≡ s
unfolding split join
join-split sep [] = refl
join-split sep (c ∷ s) =
    let (p, ps, e) = split-nonempty sep s in
    elim (Bool-cases (c == sep)) [
      | inl h ↦
          rw (h, e) (ground (arith, ap (join sep) (sym e) ∙ join-split sep s, nat_beq_iff c sep))
      | inr h ↦
          rw (h, e)
            (join-extend_first sep c p ps ∙ ap (◌∷◌ c) (ap (join sep) (sym e) ∙ join-split sep s))
    ]
