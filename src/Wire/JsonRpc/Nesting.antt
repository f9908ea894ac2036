-- ===== src/Wire/JsonRpc/Nesting.antt =====
-- The nesting check of crates/mcp-wire/src/jsonrpc.rs, against documents as trees.
use Prim.Native.Nat.{max}
use Prim.Native.Nat.add
use mathlib.Core.List.{append_assoc, append-nil}
use native.Mathlib.Nat.{add_assoc}
use headless_db_mcp.Wire.JsonRpc.{exceeds_from, exceeds_max_nesting}
use headless_db_mcp.Prelude.{
  ℕ, zero, suc, ◌+◌, ◌≤◌, Bool, true, false, ltb, ◌||◌, ◌==◌, nat_eq, [], ◌∷◌, ◌++◌, ◌≡◌, refl, sym,
  ap, ◌∙◌, arith, All, Text, if◌then◌else◌, Bool-cases, inl, inr,
}

-- Bytes outside of strings that neither opening nor close anything.
abbrev pub IsNeutral : ℕ → Type 0
IsNeutral c =
    ((c == b'"') ≡ false) × ((c == b'{' || c == b'[') ≡ false) × ((c == b'}' || c == b']') ≡ false)

-- The bytes between the quotes of a string: plain ones, and escapes of two.
pub data IsBody : Text → Type 0 where
  done : IsBody []
  plain :
      {c : ℕ} {s : Text} → (c == b'\\') ≡ false → (c == b'"') ≡ false → IsBody s → IsBody (c ∷ s)
  escape : {b c : ℕ} {s : Text} → (b == b'\\') ≡ true → IsBody s → IsBody (b ∷ c ∷ s)

-- A document as far as its nesting goes: numbers, commas, colons and spaces are `other`.
mutual
  pub data Tree : Type 0 where
    other : (s : Text) → All IsNeutral s → Tree
    quoted : (s : Text) → IsBody s → Tree
    braces brackets : Forest → Tree

  pub data Forest : Type 0 where
    nil : Forest
    cons : Tree → Forest → Forest

unfoldable mutual
  pub render : Tree → Text
  render (other s h) = s
  render (quoted s h) = b'"' ∷ (s ++ (b'"' ∷ []))
  render (braces f) = b'{' ∷ (render_all f ++ (b'}' ∷ []))
  render (brackets f) = b'[' ∷ (render_all f ++ (b']' ∷ []))

  pub render_all : Forest → Text
  render_all nil = []
  render_all (cons t f) = render t ++ render_all f

unfoldable mutual
  pub depth : Tree → ℕ
  depth (other s h) = 0
  depth (quoted s h) = 0
  depth (braces f) = suc (depth_all f)
  depth (brackets f) = suc (depth_all f)

  pub depth_all : Forest → ℕ
  depth_all nil = 0
  depth_all (cons t f) = max (depth t) (depth_all f)

module _ (m : ℕ) where
  exceeds_other :
      (d : ℕ) (s rest : Text)
      → All IsNeutral s
      → exceeds_from m d false false (s ++ rest) ≡ exceeds_from m d false false rest
  unfolding exceeds_from
  exceeds_other d [] rest h = refl
  exceeds_other d (c ∷ s) rest h = rw (h.0.0, h.0.1, h.0.2) (exceeds_other d s rest h.1)

  exceeds_inside :
      (d c : ℕ) (s : Text)
      → exceeds_from m d true false (c ∷ s)
        ≡ exceeds_from m d
            (if c == b'\\' then true else if c == b'"' then false else true)
            (c == b'\\')
            s
  unfolding exceeds_from
  exceeds_inside d c s = refl

  exceeds_escaped :
      (d c : ℕ) (s : Text) → exceeds_from m d true true (c ∷ s) ≡ exceeds_from m d true false s
  unfolding exceeds_from
  exceeds_escaped d c s = refl

  exceeds_body :
      (d : ℕ) {s : Text} (rest : Text)
      → IsBody s
      → exceeds_from m d true false (s ++ (b'"' ∷ rest)) ≡ exceeds_from m d false false rest
  exceeds_body d rest done = exceeds_inside d b'"' rest
  exceeds_body d rest (plain {c} {s} b q h) =
      exceeds_inside d c (s ++ (b'"' ∷ rest)) ∙ rw (b, q) (exceeds_body d rest h)
  exceeds_body d rest (escape {b} {c} {s} e h) =
      exceeds_inside d b (c ∷ (s ++ (b'"' ∷ rest)))
      ∙ rw e (exceeds_escaped d c (s ++ (b'"' ∷ rest)) ∙ exceeds_body d rest h)

  exceeds_quote :
      (d : ℕ) (s : Text) → exceeds_from m d false false (b'"' ∷ s) ≡ exceeds_from m d true false s
  unfolding exceeds_from
  exceeds_quote d s = refl

  exceeds_quoted :
      (d : ℕ) {s : Text} (rest : Text)
      → IsBody s
      → exceeds_from m d false false ((b'"' ∷ (s ++ (b'"' ∷ []))) ++ rest)
        ≡ exceeds_from m d false false rest
  exceeds_quoted d {s} rest h =
      exceeds_quote d ((s ++ (b'"' ∷ [])) ++ rest)
      ∙ ap (exceeds_from m d true false) (append_assoc s (b'"' ∷ []) rest)
      ∙ exceeds_body d rest h

  -- One more level, for either pair.
  exceeds_open :
      (d opening : ℕ) (s : Text)
      → (opening == b'"') ≡ false
      → (opening == b'{' || opening == b'[') ≡ true
      → exceeds_from m d false false (opening ∷ s)
        ≡ (if ltb m (d + 1) then true else exceeds_from m (d + 1) false false s)
  unfolding exceeds_from
  exceeds_open d opening s q e = rw (q, e)

  exceeds_close :
      (d closing : ℕ) (s : Text)
      → (closing == b'"') ≡ false
      → (closing == b'{' || closing == b'[') ≡ false
      → (closing == b'}' || closing == b']') ≡ true
      → exceeds_from m (d + 1) false false (closing ∷ s) ≡ exceeds_from m d false false s
  unfolding exceeds_from
  exceeds_close d closing s q e h =
      rw (q, e, h) (ap (λ (k : ℕ). exceeds_from m k false false s) (omega arith))

  Counted : ℕ → ℕ → Text → Type 0
  Counted d n s =
      (rest : Text)
      → exceeds_from m d false false (s ++ rest)
        ≡ (if ltb m (d + n) then true else exceeds_from m d false false rest)

  exceeds_group :
      (d opening closing n : ℕ) (s : Text)
      → (opening == b'"') ≡ false
      → (opening == b'{' || opening == b'[') ≡ true
      → (closing == b'"') ≡ false
      → (closing == b'{' || closing == b'[') ≡ false
      → (closing == b'}' || closing == b']') ≡ true
      → (d + 1 ≤ m → Counted (d + 1) n s)
      → Counted d (suc n) (opening ∷ (s ++ (closing ∷ [])))
  unfolding Counted
  exceeds_group d opening closing n s a b p q r inner rest =
      exceeds_open d opening _ a b ∙ (elim (Bool-cases (ltb m (d + 1))) [
        | inl e ↦ rw e (ground arith)
        | inr e ↦ rw e (
            ap (exceeds_from m (d + 1) false false) (append_assoc s (closing ∷ []) rest)
            ∙ inner (ground arith) (closing ∷ rest)
            ∙ rw (exceeds_close d closing rest p q r, add_assoc d 1 n, add.suc zero n, add.zero n))
      ])

  if_max :
      (d a b : ℕ) (x : Bool)
      → (if ltb m (d + a) then true else if ltb m (d + b) then true else x)
        ≡ (if ltb m (d + max a b) then true else x)
  if_max d a b x = ground arith

  mutual
    unfolding Counted render depth

    render-Counted : (t : Tree) (d : ℕ) → d ≤ m → Counted d (depth t) (render t)
    render-Counted (other s h) d k rest = exceeds_other d s rest h ∙ ground arith
    render-Counted (quoted s h) d k rest = exceeds_quoted d rest h ∙ ground arith
    render-Counted (braces f) d k rest =
        exceeds_group d b'{' b'}' (depth_all f) (render_all f) refl refl refl refl refl
          (render_all-Counted f (d + 1)) rest
    render-Counted (brackets f) d k rest =
        exceeds_group d b'[' b']' (depth_all f) (render_all f) refl refl refl refl refl
          (render_all-Counted f (d + 1)) rest

    render_all-Counted : (f : Forest) (d : ℕ) → d ≤ m → Counted d (depth_all f) (render_all f)
    render_all-Counted nil d k rest = ground arith
    render_all-Counted (cons t f) d k rest =
        ap (exceeds_from m d false false) (append_assoc (render t) (render_all f) rest)
        ∙ render-Counted t d k (render_all f ++ rest)
        ∙ rw (render_all-Counted f d k rest)
            (if_max d (depth t) (depth_all f) (exceeds_from m d false false rest))

  -- The text of a tree of brackets, braces, strings and other text is refused exactly if the tree
  -- is deeper than the limit, whatever brackets, quotes and escapes its strings hold.
  pub exceeds_max_nesting-depth : (t : Tree) → exceeds_max_nesting (render t) m ≡ ltb m (depth t)
  unfolding Counted exceeds_max_nesting exceeds_from
  exceeds_max_nesting-depth t =
      ap (exceeds_from m 0 false false) (sym (append-nil (render t)))
      ∙ render-Counted t 0 (omega arith) []
      ∙ ground arith
