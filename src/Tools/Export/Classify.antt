-- ===== src/Tools/Export/Classify.antt =====
-- `classify` sees through the wrappers of ClickHouse, however deep they are.
use mathlib.Core.List.{map-append}
use headless_db_mcp.Prelude.{
  ℕ, zero, suc, ◌≤◌, ◌<◌, nat_eq, text_eq, Option, none, some, [], ◌∷◌, ◌++◌, map, ◌≡◌, refl, ap,
  ◌∙◌, ◌⊎◌, inl, inr, arith, Text, codes, length, length-append, Option-cases,
}
use headless_db_mcp.Strings.{is_whitespace, strip_prefix}
use headless_db_mcp.Strings.Edges.{trim, to_ascii_lower, to_ascii_lowercase, strip_suffix_char}
use headless_db_mcp.Strings.Edges.Trimming.{
  trim_closed, trim-lower, length-trim, length-strip_suffix_char, strip_suffix_char-append,
}
use headless_db_mcp.Strings.Prefixes.{strip_prefix_sound}
use headless_db_mcp.Tools.Export.{
  or_else, and_then, unwrapped, unwrap_within, unwrap_wrappers, class_of, classify,
}

length-strip_prefix :
    (prefix s : Text) {rest : Text} → strip_prefix prefix s ≡ some rest → length rest ≤ length s
length-strip_prefix prefix s {rest} e =
    omega (arith, ap (length {0}) (strip_prefix_sound prefix s rest e), length-append prefix rest)

or_else-cases {ℓ} :
    {A : Type ℓ} (o o' : Option A) (a : A) → or_else o o' ≡ some a → (o ≡ some a) ⊎ (o' ≡ some a)
or_else-cases none o' a e = inr e
or_else-cases (some b) o' a e = inl e

suffix_of :
    (o : Option Text) (inner : Text)
    → and_then o (strip_suffix_char b')') ≡ some inner
    → (rest : Text) × (o ≡ some rest) × (strip_suffix_char b')' rest ≡ some inner)
suffix_of none inner e = cc
suffix_of (some rest) inner e = (rest, refl, e)

length-unwrapped : (t : Text) {inner : Text} → unwrapped t ≡ some inner → length inner < length t
unfolding unwrapped
length-unwrapped t {inner} e =
    let (rest, o, s) = suffix_of _ inner e in
    elim (or_else-cases (strip_prefix (codes "nullable(") t)
      (strip_prefix (codes "lowcardinality(") t) rest o) [
        | inl p ↦ omega (
          arith,
          length-strip_prefix (codes "nullable(") t p,
          length-strip_suffix_char b')' rest s,
        )
        | inr p ↦ omega (
          arith,
          length-strip_prefix (codes "lowcardinality(") t p,
          length-strip_suffix_char b')' rest s,
        )
      ]

-- Any two amounts of fuel above the length give the same: the loop has ended.
unwrap_within_enough :
    (f g : ℕ) (t : Text) → length t < f → length t < g → unwrap_within f t ≡ unwrap_within g t
unfolding unwrap_within
unwrap_within_enough zero g t h k = absurd (omega arith)
unwrap_within_enough (suc f) zero t h k = absurd (omega arith)
unwrap_within_enough (suc f) (suc g) t h k = elim (Option-cases (unwrapped t)) [
  | inl e ↦ rw (e, unwrap_within) refl
  | inr (inner, e) ↦
      rw (e, unwrap_within)
        (unwrap_within_enough f g (trim inner)
          (omega (arith, length-trim inner, length-unwrapped t e))
          (omega (arith, length-trim inner, length-unwrapped t e)))
]

-- The two wrappers, in lower case.
abbrev IsLowerWrapper : Text → Type 0
IsLowerWrapper w = (w ≡ codes "nullable(") ⊎ (w ≡ codes "lowcardinality(")

unwrapped-wrapper : (w t : Text) → IsLowerWrapper w → unwrapped (w ++ (t ++ (b')' ∷ []))) ≡ some t
unfolding unwrapped strip_prefix
unwrapped-wrapper w t (inl e) = rw e (strip_suffix_char-append b')' t)
unwrapped-wrapper w t (inr e) = rw e (strip_suffix_char-append b')' t)

unwrap_wrappers-wrapper :
    (w t : Text)
    → IsLowerWrapper w
    → unwrap_wrappers (w ++ (t ++ (b')' ∷ []))) ≡ unwrap_wrappers (trim t)
unfolding unwrap_wrappers unwrap_within
unwrap_wrappers-wrapper w t h =
    let whole = w ++ (t ++ (b')' ∷ [])) in
    rw (unwrapped-wrapper w t h, unwrap_within)
      (unwrap_within_enough (length whole) (suc (length (trim t))) (trim t)
        (omega (arith, length-trim t, length-unwrapped whole (unwrapped-wrapper w t h)))
        (omega arith))

-- What the driver of ClickHouse reports around the name of the type.
abbrev pub IsWrapper : Text → Type 0
IsWrapper w = (w ≡ codes "Nullable(") ⊎ (w ≡ codes "LowCardinality(")

lower-IsLowerWrapper : (w : Text) → IsWrapper w → IsLowerWrapper (to_ascii_lowercase w)
unfolding to_ascii_lowercase
lower-IsLowerWrapper w (inl e) = rw e (inl refl)
lower-IsLowerWrapper w (inr e) = rw e (inr refl)

trim-wrapper : (w t : Text) → IsWrapper w → trim (w ++ (t ++ (b')' ∷ []))) ≡ w ++ (t ++ (b')' ∷ []))
unfolding is_whitespace
trim-wrapper w t (inl e) = rw e (trim_closed b'N' (codes "ullable(" ++ t) b')' refl refl)
trim-wrapper w t (inr e) = rw e (trim_closed b'L' (codes "owCardinality(" ++ t) b')' refl refl)

lower-wrapper :
    (w t : Text)
    → to_ascii_lowercase (w ++ (t ++ (b')' ∷ [])))
      ≡ to_ascii_lowercase w ++ (to_ascii_lowercase t ++ (b')' ∷ []))
unfolding to_ascii_lowercase
lower-wrapper w t =
    map-append to_ascii_lower w (t ++ (b')' ∷ []))
    ∙ ap (λ s. map to_ascii_lower w ++ s) (map-append to_ascii_lower t (b')' ∷ []))

-- A type name in `Nullable(…)` or `LowCardinality(…)` has the class that it has without.
pub classify-wrapper : (w t : Text) → IsWrapper w → classify (w ++ (t ++ (b')' ∷ []))) ≡ classify t
unfolding classify
classify-wrapper w t h = ap class_of (
    ap (λ s. unwrap_wrappers (to_ascii_lowercase s)) (trim-wrapper w t h)
    ∙ ap unwrap_wrappers (lower-wrapper w t)
    ∙ unwrap_wrappers-wrapper (to_ascii_lowercase w) (to_ascii_lowercase t)
        (lower-IsLowerWrapper w h)
    ∙ ap unwrap_wrappers (trim-lower t))
