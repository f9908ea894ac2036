-- ===== src/ClickHouse/Params/Quoted.antt =====
-- What the rewriting of placeholders makes of the output of crates/driver-clickhouse/src/ident.rs.
use mathlib.Core.List.{append_assoc}
use headless_db_mcp.ClickHouse.Ident.{quote_ident, quote_literal}
use headless_db_mcp.Prelude.{
  ℕ, false, ◌==◌, nat_eq, [], ◌∷◌, ◌++◌, ◌≡◌, refl, ap, ◌∙◌, All, Text, Bool-cases, inl, inr,
}
use headless_db_mcp.ClickHouse.Params.{plain, in_single_quote, in_backtick, push_str, rewrite_from}
use headless_db_mcp.ClickHouse.Params.Rounds.{
  plain-single, plain-backtick, single-both, single-close, single-stay, backtick-both,
  backtick-close, backtick-stay,
}
use headless_db_mcp.Quoting.{doubled, quote_with}
use headless_db_mcp.Quoting.Reading.{Ends}

-- Quoted identifiers and literals pass through, and what they hold is never a placeholder.
doubled_backtick :
    (name rest : Text) (n : ℕ)
    → Ends b'`' rest
    → rewrite_from in_backtick n (doubled b'`' name ++ (b'`' ∷ rest))
      ≡ push_str (doubled b'`' name ++ (b'`' ∷ [])) (rewrite_from plain n rest)
unfolding doubled
doubled_backtick [] rest n h = backtick-close n b'`' rest refl h
doubled_backtick (c ∷ name) rest n h = elim (Bool-cases (c == b'`')) [
  | inl e ↦ rw e (
      backtick-both n b'`' c _ refl e
      ∙ ap (push_str (b'`' ∷ c ∷ [])) (doubled_backtick name rest n h))
  | inr e ↦ rw e (backtick-stay n c _ e ∙ ap (push_str (c ∷ [])) (doubled_backtick name rest n h))
]

-- Before a text that does not begin with a backtick, a quoted identifier is copied as it is,
-- whatever the name holds, and the scan goes on outside of quotes.
pub rewrite_from-quote_ident :
    (name rest : Text) (n : ℕ)
    → Ends b'`' rest
    → rewrite_from plain n (quote_ident name ++ rest)
      ≡ push_str (quote_ident name) (rewrite_from plain n rest)
unfolding quote_ident quote_with
rewrite_from-quote_ident name rest n h =
    plain-backtick n b'`' _ refl
    ∙ ap (push_str (b'`' ∷ []))
        (rw (append_assoc (doubled b'`' name) (b'`' ∷ []) rest) (doubled_backtick name rest n h))

abbrev pub HasNoBackslash : Text → Type 0
HasNoBackslash s = All (λ c. (c == b'\\') ≡ false) s

doubled_single :
    (value rest : Text) (n : ℕ)
    → HasNoBackslash value
    → Ends b'\'' rest
    → rewrite_from in_single_quote n (doubled b'\'' value ++ (b'\'' ∷ rest))
      ≡ push_str (doubled b'\'' value ++ (b'\'' ∷ [])) (rewrite_from plain n rest)
unfolding doubled
doubled_single [] rest n b h = single-close n b'\'' rest refl h
doubled_single (c ∷ value) rest n b h = elim (Bool-cases (c == b'\'')) [
  | inl e ↦ rw e (
      single-both n b'\'' c _ e
      ∙ ap (push_str (b'\'' ∷ c ∷ [])) (doubled_single value rest n b.1 h))
  | inr e ↦
      rw e (single-stay n c _ b.0 e ∙ ap (push_str (c ∷ [])) (doubled_single value rest n b.1 h))
]

-- Before a text that does not begin with a quote, a quoted literal whose value has no backslash is
-- copied as it is, and the scan goes on outside of quotes.
pub rewrite_from-quote_literal :
    (value rest : Text) (n : ℕ)
    → HasNoBackslash value
    → Ends b'\'' rest
    → rewrite_from plain n (quote_literal value ++ rest)
      ≡ push_str (quote_literal value) (rewrite_from plain n rest)
unfolding quote_literal quote_with
rewrite_from-quote_literal value rest n b h =
    plain-single n b'\'' _ refl
    ∙ ap (push_str (b'\'' ∷ [])) (
        rw (append_assoc (doubled b'\'' value) (b'\'' ∷ []) rest) (doubled_single value rest n b h))

-- With a backslash at its end the literal does not close: the scanner of this crate goes on
-- reading the statement behind it as text.
doubled_open :
    (value rest : Text) (n : ℕ)
    → HasNoBackslash value
    → rewrite_from in_single_quote n (doubled b'\'' value ++ (b'\\' ∷ b'\'' ∷ rest))
      ≡ push_str (doubled b'\'' value ++ (b'\\' ∷ b'\'' ∷ [])) (rewrite_from in_single_quote n rest)
unfolding doubled
doubled_open [] rest n b = single-both n b'\\' b'\'' rest refl
doubled_open (c ∷ value) rest n b = elim (Bool-cases (c == b'\'')) [
  | inl e ↦
      rw e
        (single-both n b'\'' c _ e ∙ ap (push_str (b'\'' ∷ c ∷ [])) (doubled_open value rest n b.1))
  | inr e ↦ rw e (single-stay n c _ b.0 e ∙ ap (push_str (c ∷ [])) (doubled_open value rest n b.1))
]

doubled-concat :
    (value : Text) → doubled b'\'' (value ++ (b'\\' ∷ [])) ≡ doubled b'\'' value ++ (b'\\' ∷ [])
unfolding doubled
doubled-concat [] = refl
doubled-concat (c ∷ value) = elim (Bool-cases (c == b'\'')) [
  | inl e ↦ rw e (ap (λ (t : Text). b'\'' ∷ c ∷ t) (doubled-concat value))
  | inr e ↦ rw e (ap (◌∷◌ c) (doubled-concat value))
]

-- A literal whose value ends in its only backslash does not close: it is copied, and the scan of
-- what follows goes on inside the quote.
pub quote_literal_open :
    (value rest : Text) (n : ℕ)
    → HasNoBackslash value
    → rewrite_from plain n (quote_literal (value ++ (b'\\' ∷ [])) ++ rest)
      ≡ push_str (quote_literal (value ++ (b'\\' ∷ []))) (rewrite_from in_single_quote n rest)
unfolding quote_literal quote_with
quote_literal_open value rest n b =
    plain-single n b'\'' _ refl
    ∙ ap (push_str (b'\'' ∷ [])) (
        rw
          (
            doubled-concat value,
            append_assoc (doubled b'\'' value) (b'\\' ∷ []) (b'\'' ∷ []),
            append_assoc (doubled b'\'' value) (b'\\' ∷ b'\'' ∷ []) rest,
          )
          (doubled_open value rest n b))
