-- ===== src/ClickHouse/Statement/Stripped.antt =====
-- What is left of a statement when the whitespace and the comments in front of it are skipped.
use headless_db_mcp.ClickHouse.Statement.{
  after_newline, after_close, line_comment, block_comment, after_comment,
  skip_whitespace_and_comments,
}
use headless_db_mcp.ClickHouse.Statement.Leading.{
  HasNoClose, Leads, here, space, line, block, open_line, open_block,
}
use headless_db_mcp.ClickHouse.Statement.Skipping.{
  after_comment-line, after_comment-block, after_comment-none, length-after_comment,
  length-trim_start, skip-some, skip-none, trim_start_idem,
}
use headless_db_mcp.Prelude.{
  ℕ, zero, suc, ◌<◌, ◌==◌, nat_eq, nat_beq_iff, none, some, [], ◌∷◌, ◌++◌, ◌≡◌, refl, ap, arith,
  Text, codes, length, Option-cases, Bool-cases, inl, inr, ◌&&◌, false, ◌⊎◌,
}
use headless_db_mcp.Strings.{strip_prefix, is_whitespace, trim_start}
use headless_db_mcp.Strings.Splits.{Lacks}

-- The text begins with neither whitespace nor the marker of a comment.
abbrev pub IsBare : Text → Type 0
IsBare s =
    (trim_start s ≡ s) × (strip_prefix (codes "--") s ≡ none) × (strip_prefix (codes "/*") s ≡ none)

strip_prefix-some : (p s rest : Text) → strip_prefix p s ≡ some rest → s ≡ p ++ rest
unfolding strip_prefix
strip_prefix-some [] s rest h = ground arith
strip_prefix-some (x ∷ p) [] rest h = cc
strip_prefix-some (x ∷ p) (c ∷ s) rest h = elim (Bool-cases (x == c)) [
  | inl e ↦
      let same : x ≡ c = (nat_beq_iff x c).0 e in
      rw (← same, strip_prefix-some p s rest (rw e at h)) refl
  | inr e ↦ absurd (ground arith)
]

-- The body of a comment that begins here, and what follows it.
after_newline-cut :
    (m : Text)
    → ((body : Text) × Lacks b'\n' body × (m ≡ body ++ (b'\n' ∷ after_newline m)))
      ⊎ (Lacks b'\n' m × (after_newline m ≡ []))
unfolding after_newline
after_newline-cut [] = inr (tt, refl)
after_newline-cut (c ∷ m) = elim (Bool-cases (c == b'\n')) [
  | inl e ↦ rw e (inl ([], tt, ap (λ x. x ∷ m) ((nat_beq_iff c b'\n').0 e)))
  | inr e ↦ rw e (elim (after_newline-cut m) [
    | inl (body, h, f) ↦ inl (c ∷ body, (e, h), ap (◌∷◌ c) f)
    | inr (h, f) ↦ inr ((refl, h), f)
  ])
]

HasNoClose-cons :
    (c d : ℕ) (s body rest : Text)
    → (c == b'*' && d == b'/') ≡ false
    → d ∷ s ≡ body ++ rest
    → HasNoClose body
    → HasNoClose (c ∷ body)
HasNoClose-cons c d s [] rest h e l = tt
HasNoClose-cons c d s (x ∷ body) rest h e l = let same : d ≡ x = cc in (rw same at h, l)

after_close-cut :
    (m : Text)
    → ((body : Text) × HasNoClose body × (m ≡ body ++ (b'*' ∷ b'/' ∷ after_close m)))
      ⊎ (HasNoClose m × (after_close m ≡ []))
unfolding after_close
after_close-cut [] = inr (tt, refl)
after_close-cut (c ∷ []) = inr (tt, refl)
after_close-cut (c ∷ d ∷ s) = elim (Bool-cases (c == b'*' && d == b'/')) [
  | inl e ↦
      let star : c ≡ b'*' = ground arith in
      let slash : d ≡ b'/' = ground arith in rw (star, slash) (inl ([], tt, refl))
  | inr e ↦
      let later : after_close (c ∷ d ∷ s) ≡ after_close (d ∷ s) = ground arith in
      rw later (elim (after_close-cut (d ∷ s)) [
        | inl (body, h, f) ↦ inl (c ∷ body, HasNoClose-cons c d s body _ e f h, ap (◌∷◌ c) f)
        | inr (h, f) ↦ inr ((e, h), f)
      ])
]

skip_nothing : skip_whitespace_and_comments [] ≡ []
unfolding trim_start
skip_nothing =
    skip-none [] (after_comment-none [] (unfold strip_prefix in refl) (unfold strip_prefix in refl))

abbrev IsLed : Text → Text → Type 0
IsLed whole rest =
    Leads (skip_whitespace_and_comments rest) rest → Leads (skip_whitespace_and_comments rest) whole

line-IsLed : (whole m : Text) → line_comment whole ≡ some m → IsLed whole (after_newline m)
line-IsLed whole m e l =
    let cut = strip_prefix-some (codes "--") whole m e in
    elim (after_newline-cut m) [
      | inl (body, h, f) ↦ line body h (rw (← f) cut) l
      | inr (h, f) ↦ open_line m h cut (rw f skip_nothing)
    ]

block-IsLed : (whole m : Text) → block_comment whole ≡ some m → IsLed whole (after_close m)
block-IsLed whole m e l =
    let cut = strip_prefix-some (codes "/*") whole m e in
    elim (after_close-cut m) [
      | inl (body, h, f) ↦ block body h (rw (← f) cut) l
      | inr (h, f) ↦ open_block m h cut (rw f skip_nothing)
    ]

after_comment-IsLed : (whole rest : Text) → after_comment whole ≡ some rest → IsLed whole rest
after_comment-IsLed whole rest h = elim (Option-cases (line_comment whole)) [
  | inr (m, e) ↦
      let same : after_newline m ≡ rest = ground (arith, after_comment-line whole m e) in
      rw (← same) (line-IsLed whole m e)
  | inl e ↦ elim (Option-cases (block_comment whole)) [
    | inr (m, f) ↦
        let same : after_close m ≡ rest = ground (arith, after_comment-block whole m e f) in
        rw (← same) (block-IsLed whole m f)
    | inl f ↦ absurd (ground (arith, after_comment-none whole e f))
  ]
]

none-IsBare : (s : Text) → trim_start s ≡ s → after_comment s ≡ none → IsBare s
none-IsBare s t h = elim (Option-cases (line_comment s)) [
  | inr (m, e) ↦ absurd (ground (arith, after_comment-line s m e))
  | inl e ↦ elim (Option-cases (block_comment s)) [
    | inr (m, f) ↦ absurd (ground (arith, after_comment-block s m e f))
    | inl f ↦ (t, e, f)
  ]
]

trim_start-Leads : (t s : Text) → Leads t (trim_start s) → Leads t s
unfolding trim_start
trim_start-Leads t [] l = l
trim_start-Leads t (c ∷ s) l = elim (Bool-cases (is_whitespace c)) [
  | inl e ↦ space e (trim_start-Leads t s (rw e at l))
  | inr e ↦ rw e at l
]

abbrev IsStripped : Text → Type 0
IsStripped s = Leads (skip_whitespace_and_comments s) s × IsBare (skip_whitespace_and_comments s)

skip-IsStripped : (fuel : ℕ) (s : Text) → length s < fuel → IsStripped s
skip-IsStripped zero s h = elim h [ ]
skip-IsStripped (suc fuel) s h = elim (Option-cases (after_comment (trim_start s))) [
  | inl e ↦
      rw (skip-none s e)
        (trim_start-Leads _ s here, none-IsBare (trim_start s) (trim_start_idem s) e)
  | inr (rest, e) ↦
      let (led, bare) =
        skip-IsStripped fuel rest
          (omega (arith, length-after_comment (trim_start s) e, length-trim_start s)) in
      rw (skip-some s rest e)
        (trim_start-Leads _ s (after_comment-IsLed (trim_start s) rest e led), bare)
]

-- What skipping leaves begins with neither whitespace nor the marker of a comment, and in front of it
-- the statement has only whitespace and comments, each of which ends at the first newline or `*/`; if
-- one has no such end, nothing is left.
pub skip_whitespace_and_comments-Leads :
    (sql : Text)
    → Leads (skip_whitespace_and_comments sql) sql × IsBare (skip_whitespace_and_comments sql)
skip_whitespace_and_comments-Leads sql = skip-IsStripped (suc (length sql)) sql (omega arith)
