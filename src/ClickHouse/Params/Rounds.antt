-- ===== src/ClickHouse/Params/Rounds.antt =====
-- One round of the loop of `rewrite_question_marks`, on each of its branches.
use headless_db_mcp.Prelude.{
  ℕ, suc, true, false, ◌==◌, nat_eq, ◌||◌, [], ◌∷◌, ◌++◌, ◌≡◌, refl, ap, arith, All, All-append,
  Text, codes, Bool-cases, inl, inr, ◌&&◌,
}
use headless_db_mcp.ClickHouse.Params.{
  plain, in_single_quote, in_backtick, placeholder, push_str, rewrite_from,
}
use headless_db_mcp.Quoting.Reading.{Ends}
use headless_db_mcp.Strings.{is_ascii_digit, decimal}
use headless_db_mcp.Strings.Decimal.{decimal-digits}

-- A character that the loop copies outside of quotes.
abbrev pub IsCopied : ℕ → Type 0
IsCopied c = ((c == b'\'') ≡ false) × ((c == b'`') ≡ false) × ((c == b'?') ≡ false)

pub rewrite_from-copied :
    (u : Text) (n : ℕ) (s : Text)
    → All IsCopied u
    → rewrite_from plain n (u ++ s) ≡ push_str u (rewrite_from plain n s)
unfolding rewrite_from
rewrite_from-copied [] n s h = refl
rewrite_from-copied (c ∷ u) n s h =
    rw (h.0.0, h.0.1, h.0.2) (ap (push_str (c ∷ [])) (rewrite_from-copied u n s h.1))

digit-IsCopied : (c : ℕ) → is_ascii_digit c ≡ true → IsCopied c
digit-IsCopied c h = ground arith

All-map : {P Q : ℕ → Type 0} (s : Text) → ((c : ℕ) → P c → Q c) → All P s → All Q s
All-map [] f h = tt
All-map (c ∷ s) f h = (f c h.0, All-map s f h.1)

pub placeholder-IsCopied : (n : ℕ) → All IsCopied (placeholder n)
unfolding placeholder
placeholder-IsCopied n = All-append IsCopied (codes "unhex({p") _ (ground arith) (
    All-append IsCopied (decimal n) (codes ":String})")
      (All-map {P = λ c. is_ascii_digit c ≡ true} (decimal n) digit-IsCopied (decimal-digits n))
      (ground arith))

-- One round of the loop inside quotes, on each of its branches.
module _ (n c d : ℕ) (s : Text) where
  pub single-both :
      (c == b'\\' || c == b'\'' && d == b'\'') ≡ true
      → rewrite_from in_single_quote n (c ∷ d ∷ s)
        ≡ push_str (c ∷ d ∷ []) (rewrite_from in_single_quote n s)
  unfolding rewrite_from
  single-both h = elim (Bool-cases (c == b'\\')) [
    | inl e ↦ rw e
    | inr e ↦ elim (Bool-cases (c == b'\'')) [
      | inl q ↦ elim (Bool-cases (d == b'\'')) [
        | inl r ↦ rw (e, q, r)
        | inr r ↦ absurd (ground arith)
      ]
      | inr q ↦ absurd (ground arith)
    ]
  ]

  pub backtick-both :
      (c == b'`') ≡ true
      → (d == b'`') ≡ true
      → rewrite_from in_backtick n (c ∷ d ∷ s)
        ≡ push_str (c ∷ d ∷ []) (rewrite_from in_backtick n s)
  unfolding rewrite_from
  backtick-both h k = rw (h, k)

module _ (n c : ℕ) where
  pub single-close :
      (s : Text)
      → (c == b'\'') ≡ true
      → Ends b'\'' s
      → rewrite_from in_single_quote n (c ∷ s) ≡ push_str (c ∷ []) (rewrite_from plain n s)
  unfolding rewrite_from
  single-close [] h k = refl
  single-close (d ∷ s) h k = let e : (c == b'\\') ≡ false = ground arith in rw (e, h, k)

  pub single-stay :
      (s : Text)
      → (c == b'\\') ≡ false
      → (c == b'\'') ≡ false
      → rewrite_from in_single_quote n (c ∷ s)
        ≡ push_str (c ∷ []) (rewrite_from in_single_quote n s)
  unfolding rewrite_from
  single-stay [] h k = refl
  single-stay (d ∷ s) h k = rw (h, k)

  pub backtick-close :
      (s : Text)
      → (c == b'`') ≡ true
      → Ends b'`' s
      → rewrite_from in_backtick n (c ∷ s) ≡ push_str (c ∷ []) (rewrite_from plain n s)
  unfolding rewrite_from
  backtick-close [] h k = refl
  backtick-close (d ∷ s) h k = rw (h, k)

  pub backtick-stay :
      (s : Text)
      → (c == b'`') ≡ false
      → rewrite_from in_backtick n (c ∷ s) ≡ push_str (c ∷ []) (rewrite_from in_backtick n s)
  unfolding rewrite_from
  backtick-stay [] h = refl
  backtick-stay (d ∷ s) h = rw h

pub plain-single :
    (n c : ℕ) (s : Text)
    → (c == b'\'') ≡ true
    → rewrite_from plain n (c ∷ s) ≡ push_str (c ∷ []) (rewrite_from in_single_quote n s)
unfolding rewrite_from
plain-single n c s h = rw h

pub plain-backtick :
    (n c : ℕ) (s : Text)
    → (c == b'`') ≡ true
    → rewrite_from plain n (c ∷ s) ≡ push_str (c ∷ []) (rewrite_from in_backtick n s)
unfolding rewrite_from
plain-backtick n c s h = let e : (c == b'\'') ≡ false = ground arith in rw (e, h)

pub plain-bind :
    (n c : ℕ) (s : Text)
    → (c == b'?') ≡ true
    → rewrite_from plain n (c ∷ s) ≡ push_str (placeholder (suc n)) (rewrite_from plain (suc n) s)
unfolding rewrite_from
plain-bind n c s h =
    let e : (c == b'\'') ≡ false = ground arith in
    let f : (c == b'`') ≡ false = ground arith in rw (e, f, h)

pub plain-copy :
    (n c : ℕ) (s : Text)
    → IsCopied c
    → rewrite_from plain n (c ∷ s) ≡ push_str (c ∷ []) (rewrite_from plain n s)
plain-copy n c s h = rewrite_from-copied (c ∷ []) n s (h, tt)
