-- ===== src/Quoting/Reading.antt =====
-- How the SQL standard reads a quoted token, independently of how it is written: up to the first
-- quote that is not doubled.
use mathlib.Core.List.{append_assoc}
use headless_db_mcp.Prelude.{
  ℕ, true, false, ◌==◌, nat_eq, nat_beq_iff, nat_beq_refl, Option, none, some, [], ◌∷◌, ◌++◌, ◌≡◌,
  ap, ◌∙◌, arith, Text, if◌then◌else◌, Bool-cases, inl, inr,
}
use headless_db_mcp.Quoting.{doubled, quote_with}

abbrev pub push_char : ℕ → Option (Text × Text) → Option (Text × Text)
push_char c none = none
push_char c (some (name, rest)) = some (c ∷ name, rest)

-- The text behind an opening quote: the content up to the closing quote, and what follows it.
unfoldable pub read_body : ℕ → Text → Option (Text × Text)
read_body q [] = none
read_body q (c ∷ []) = if c == q then some ([], []) else none
read_body q (c ∷ d ∷ s) =
    let escaped = push_char c (read_body q s) in
    let next = push_char c (read_body q (d ∷ s)) in
    if c == q then (if d == q then escaped else some ([], d ∷ s)) else next

unfoldable pub read_quoted : ℕ → Text → Option (Text × Text)
unfolding read_body
read_quoted q [] = none
read_quoted q (c ∷ s) = if c == q then read_body q s else none

-- What follows a token does not go on with the quote character.
abbrev pub Ends : ℕ → Text → Type 0
Ends q [] = Unit
Ends q (c ∷ s) = (c == q) ≡ false

read_body-close : (q : ℕ) (rest : Text) → Ends q rest → read_body q (q ∷ rest) ≡ some ([], rest)
unfolding read_body
read_body-close q [] h = rw (nat_beq_refl q)
read_body-close q (c ∷ rest) h = rw (nat_beq_refl q, h)

read_body-other :
    (q c : ℕ) (s : Text) → (c == q) ≡ false → read_body q (c ∷ s) ≡ push_char c (read_body q s)
unfolding read_body
read_body-other q c [] h = rw h
read_body-other q c (d ∷ s) h = rw h

read_body-pair :
    (q c : ℕ) (s : Text) → (c == q) ≡ true → read_body q (q ∷ c ∷ s) ≡ push_char c (read_body q s)
unfolding read_body
read_body-pair q c s h = rw (nat_beq_refl q, h) (ground (arith, nat_beq_iff c q))

read_body-doubled :
    (q : ℕ) (s rest : Text) → Ends q rest → read_body q (doubled q s ++ (q ∷ rest)) ≡ some (s, rest)
unfolding doubled
read_body-doubled q [] rest h = read_body-close q rest h
read_body-doubled q (c ∷ s) rest h = elim (Bool-cases (c == q)) [
  | inl e ↦ rw e (read_body-pair q c _ e ∙ ap (push_char c) (read_body-doubled q s rest h))
  | inr e ↦ rw e (read_body-other q c _ e ∙ ap (push_char c) (read_body-doubled q s rest h))
]

-- A quoted token is read back whole, whatever characters it holds.
pub read_quoted-quote_with :
    (q : ℕ) (s rest : Text) → Ends q rest → read_quoted q (quote_with q s ++ rest) ≡ some (s, rest)
unfolding read_quoted quote_with
read_quoted-quote_with q s rest h =
    rw (nat_beq_refl q, append_assoc (doubled q s) (q ∷ []) rest) (read_body-doubled q s rest h)
