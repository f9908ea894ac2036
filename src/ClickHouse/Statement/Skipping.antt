-- ===== src/ClickHouse/Statement/Skipping.antt =====
-- The loop over leading whitespace and comments of crates/driver-clickhouse/src/statement.rs: its
-- rounds.
use headless_db_mcp.ClickHouse.Statement.{
  after_newline, after_close, line_comment, block_comment, after_comment, skip_within,
  skip_whitespace_and_comments,
}
use headless_db_mcp.Prelude.{
  ℕ, zero, suc, ◌+◌, ◌<◌, ◌≤◌, ◌==◌, nat_eq, none, some, [], ◌∷◌, ◌≡◌, refl, sym, ◌∙◌, arith, Text,
  codes, length, Option-cases, Bool-cases, inl, inr,
}
use headless_db_mcp.Strings.{strip_prefix, is_whitespace, trim_start}

length-after_newline : (s : Text) → length (after_newline s) ≤ length s
unfolding after_newline
length-after_newline [] = omega arith
length-after_newline (c ∷ s) = ground (arith, length-after_newline s)

length-after_close : (s : Text) → length (after_close s) ≤ length s
unfolding after_close
length-after_close [] = omega arith
length-after_close (c ∷ []) = omega arith
length-after_close (c ∷ d ∷ s) = ground (arith, length-after_close (d ∷ s))

pub length-trim_start : (s : Text) → length (trim_start s) ≤ length s
unfolding trim_start
length-trim_start [] = omega arith
length-trim_start (c ∷ s) = ground (arith, length-trim_start s)

length-strip_prefix :
    (p s : Text) {rest : Text} → strip_prefix p s ≡ some rest → length rest + length p ≡ length s
unfolding strip_prefix
length-strip_prefix [] s h = ground arith
length-strip_prefix (x ∷ p) [] h = cc
length-strip_prefix (x ∷ p) (c ∷ s) h = elim (Bool-cases (x == c)) [
  | inl e ↦ omega (arith, length-strip_prefix p s (rw e at h))
  | inr e ↦ absurd (ground arith)
]

pub after_comment-line :
    (s m : Text) → line_comment s ≡ some m → after_comment s ≡ some (after_newline m)
unfolding after_comment
after_comment-line s m e = rw (e, after_comment)

pub after_comment-block :
    (s m : Text)
    → line_comment s ≡ none
    → block_comment s ≡ some m
    → after_comment s ≡ some (after_close m)
unfolding after_comment
after_comment-block s m e f = rw (e, after_comment) (rw (f, after_comment))

pub after_comment-none :
    (s : Text) → line_comment s ≡ none → block_comment s ≡ none → after_comment s ≡ none
unfolding after_comment
after_comment-none s e f = rw (e, after_comment) (rw (f, after_comment))

-- Each comment skipped is at least as long as its marker.
pub length-after_comment :
    (s : Text) {rest : Text} → after_comment s ≡ some rest → length rest < length s
length-after_comment s h = elim (Option-cases (line_comment s)) [
  | inr (m, e) ↦ ground (
    arith,
    after_comment-line s m e,
    length-after_newline m,
    length-strip_prefix (codes "--") s e,
  )
  | inl e ↦ elim (Option-cases (block_comment s)) [
    | inr (m, f) ↦ ground (
      arith,
      after_comment-block s m e f,
      length-after_close m,
      length-strip_prefix (codes "/*") s f,
    )
    | inl f ↦ ground (arith, after_comment-none s e f)
  ]
]

skip_within-some :
    (fuel : ℕ) (s rest : Text)
    → after_comment (trim_start s) ≡ some rest
    → skip_within (suc fuel) s ≡ skip_within fuel rest
unfolding skip_within
skip_within-some fuel s rest e = rw (e, skip_within)

skip_within-none :
    (fuel : ℕ) (s : Text)
    → after_comment (trim_start s) ≡ none
    → skip_within (suc fuel) s ≡ trim_start s
unfolding skip_within
skip_within-none fuel s e = rw (e, skip_within)

-- Any fuel above the length gives the same text.
skip_within_enough :
    (f g : ℕ) (s : Text) → length s < f → length s < g → skip_within f s ≡ skip_within g s
skip_within_enough zero g s h k = elim h [ ]
skip_within_enough (suc f) zero s h k = elim k [ ]
skip_within_enough (suc f) (suc g) s h k = elim (Option-cases (after_comment (trim_start s))) [
  | inl e ↦ skip_within-none f s e ∙ sym (skip_within-none g s e)
  | inr (rest, e) ↦
      let shorter : length rest < length s =
        omega (arith, length-after_comment (trim_start s) e, length-trim_start s) in
      skip_within-some f s rest e
      ∙ skip_within_enough f g rest (omega arith) (omega arith)
      ∙ sym (skip_within-some g s rest e)
]

pub skip-some :
    (s rest : Text)
    → after_comment (trim_start s) ≡ some rest
    → skip_whitespace_and_comments s ≡ skip_whitespace_and_comments rest
unfolding skip_whitespace_and_comments
skip-some s rest e =
    let shorter : length rest < length s =
      omega (arith, length-after_comment (trim_start s) e, length-trim_start s) in
    skip_within-some (length s) s rest e
    ∙ skip_within_enough (length s) (suc (length rest)) rest shorter (omega arith)

pub skip-none :
    (s : Text) → after_comment (trim_start s) ≡ none → skip_whitespace_and_comments s ≡ trim_start s
unfolding skip_whitespace_and_comments
skip-none s e = skip_within-none (length s) s e

pub trim_start_idem : (s : Text) → trim_start (trim_start s) ≡ trim_start s
unfolding trim_start
trim_start_idem [] = refl
trim_start_idem (c ∷ s) = elim (Bool-cases (is_whitespace c)) [
  | inl e ↦ rw e (trim_start_idem s)
  | inr e ↦ rw (e, e)
]
