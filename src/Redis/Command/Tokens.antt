-- ===== src/Redis/Command/Tokens.antt =====
-- Lines written token by token, and the tokenizer.
use mathlib.Core.List.{append_assoc, append-nil}
use headless_db_mcp.Redis.Command.{push_token, tokenize_from, tokenize}
use headless_db_mcp.Prelude.{
  ℕ, Bool, true, false, ◌||◌, ◌==◌, nat_eq, nat_beq_refl, none, some, List, [], ◌∷◌, ◌++◌, ◌≡◌, ◌≢◌,
  refl, ap, ◌∙◌, All, Text, ok,
}
use headless_db_mcp.Strings.{is_whitespace, join}
use headless_db_mcp.Strings.Splits.{Lacks}

abbrev pub IsQuote : ℕ → Type 0
IsQuote q = (is_whitespace q ≡ false) × ((q == b'"' || q == b'\'') ≡ true)

abbrev pub IsBareChar : ℕ → Type 0
IsBareChar c = (is_whitespace c ≡ false) × ((c == b'"' || c == b'\'') ≡ false)

-- How a token stands in a line: between quotes of a kind that it does not hold, or bare.
pub data Writes (token : Text) : Text → Type 0 where
  quoted :
      {q : ℕ} {piece : Text}
      → IsQuote q
      → Lacks q token
      → piece ≡ q ∷ (token ++ (q ∷ []))
      → Writes token piece
  bare : {piece : Text} → token ≢ [] → All IsBareChar token → piece ≡ token → Writes token piece

tokenize_from_quoted :
    (q : ℕ) (t current : Text) (has : Bool) (rest : Text)
    → Lacks q t
    → tokenize_from (some q) current has (t ++ (q ∷ rest))
      ≡ tokenize_from none (current ++ t) has rest
unfolding tokenize_from
tokenize_from_quoted q [] current has rest h = rw (nat_beq_refl q, append-nil current)
tokenize_from_quoted q (c ∷ t) current has rest h = rw h.0 (
    tokenize_from_quoted q t (current ++ (c ∷ [])) has rest h.1
    ∙ rw (append_assoc current (c ∷ []) t))

tokenize_from_bare :
    (t current : Text) (has : Bool) (rest : Text)
    → All IsBareChar t
    → tokenize_from none current true (t ++ rest) ≡ tokenize_from none (current ++ t) true rest
unfolding tokenize_from
tokenize_from_bare [] current has rest h = rw (append-nil current)
tokenize_from_bare (c ∷ t) current has rest h =
    rw (h.0.0, h.0.1)
      (tokenize_from_bare t (current ++ (c ∷ [])) true rest h.1
        ∙ rw (append_assoc current (c ∷ []) t))

tokenize_from-open :
    (q : ℕ) (s : Text)
    → IsQuote q
    → tokenize_from none [] false (q ∷ s) ≡ tokenize_from (some q) [] true s
unfolding tokenize_from
tokenize_from-open q s h = rw (h.0, h.1)

tokenize_from-start :
    (c : ℕ) (s : Text)
    → IsBareChar c
    → tokenize_from none [] false (c ∷ s) ≡ tokenize_from none (c ∷ []) true s
unfolding tokenize_from
tokenize_from-start c s h = rw (h.0, h.1)

tokenize_from-Writes :
    (token : Text) {piece : Text} (rest : Text)
    → Writes token piece
    → tokenize_from none [] false (piece ++ rest) ≡ tokenize_from none token true rest
tokenize_from-Writes token rest (quoted {q} k h e) = rw e (
    tokenize_from-open q _ k
    ∙ rw (append_assoc token (q ∷ []) rest) (tokenize_from_quoted q token [] true rest h))
tokenize_from-Writes [] rest (bare n h e) = absurd (n refl)
tokenize_from-Writes (c ∷ token) rest (bare n h e) =
    rw e
      (tokenize_from-start c (token ++ rest) h.0 ∙ tokenize_from_bare token (c ∷ []) true rest h.1)

tokenize_from-end : (token : Text) → tokenize_from none token true [] ≡ ok (token ∷ [])
unfolding tokenize_from
tokenize_from-end token = refl

tokenize_from-space :
    (token rest : Text)
    → tokenize_from none token true (b' ' ∷ rest)
      ≡ push_token token (tokenize_from none [] false rest)
unfolding tokenize_from is_whitespace
tokenize_from-space token rest = refl

abbrev pub WritesAll : List Text → List Text → Type 0
WritesAll [] [] = Unit
WritesAll (t ∷ ts) (p ∷ ps) = Writes t p × WritesAll ts ps
WritesAll _ _ = ⊥

-- A line that holds the tokens with single spaces between them, each either between quotes of a
-- kind it does not hold or bare (and then not empty, with no whitespace and no quote), is tokenized
-- back.
pub tokenize-WritesAll :
    (tokens pieces : List Text) → WritesAll tokens pieces → tokenize (join b' ' pieces) ≡ ok tokens
unfolding tokenize join
tokenize-WritesAll [] [] h = unfold tokenize_from in refl
tokenize-WritesAll [] (p ∷ ps) h = absurd h
tokenize-WritesAll (t ∷ ts) [] h = absurd h
tokenize-WritesAll (t ∷ []) (p ∷ []) h =
    rw (← append-nil p) (tokenize_from-Writes t [] h.0 ∙ tokenize_from-end t)
tokenize-WritesAll (t ∷ []) (p ∷ q ∷ ps) h = absurd h.1
tokenize-WritesAll (t ∷ u ∷ ts) (p ∷ []) h = absurd h.1
tokenize-WritesAll (t ∷ u ∷ ts) (p ∷ q ∷ ps) h =
    tokenize_from-Writes t (b' ' ∷ join b' ' (q ∷ ps)) h.0
    ∙ tokenize_from-space t (join b' ' (q ∷ ps))
    ∙ ap (push_token t) (tokenize-WritesAll (u ∷ ts) (q ∷ ps) h.1)
