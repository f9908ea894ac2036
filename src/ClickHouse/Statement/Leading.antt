-- ===== src/ClickHouse/Statement/Leading.antt =====
-- Whitespace and comments in front of a statement, and its classification.
use headless_db_mcp.ClickHouse.Statement.{
  after_newline, after_close, after_comment, skip_whitespace_and_comments,
  is_row_returning_statement,
}
use headless_db_mcp.Prelude.{
  ℕ, Bool, true, false, ◌&&◌, ◌==◌, nat_eq, some, [], ◌∷◌, ◌++◌, ◌≡◌, refl, sym, ap, ◌∙◌, arith,
  Text, codes, Option-cases, inl, inr,
}
use headless_db_mcp.Strings.{strip_prefix, is_whitespace, trim_start}
use headless_db_mcp.Strings.Splits.{Lacks}
use headless_db_mcp.ClickHouse.Statement.Skipping.{
  after_comment-line, after_comment-block, skip-some, skip-none,
}

-- No `*/` in the text.
abbrev pub HasNoClose : Text → Type 0
HasNoClose [] = Unit
HasNoClose (c ∷ []) = Unit
HasNoClose (c ∷ d ∷ s) = (c == b'*' && d == b'/') ≡ false × HasNoClose (d ∷ s)

-- `sql` is `s` behind whitespace, line comments and block comments; a comment that is not closed goes
-- to the end of the statement.
pub data Leads (s : Text) : Text → Type 0 where
  here : Leads s s
  space : {c : ℕ} {sql : Text} → is_whitespace c ≡ true → Leads s sql → Leads s (c ∷ sql)
  line :
      (body : Text) {sql whole : Text}
      → Lacks b'\n' body
      → whole ≡ codes "--" ++ (body ++ (b'\n' ∷ sql))
      → Leads s sql
      → Leads s whole
  block :
      (body : Text) {sql whole : Text}
      → HasNoClose body
      → whole ≡ codes "/*" ++ (body ++ (b'*' ∷ b'/' ∷ sql))
      → Leads s sql
      → Leads s whole
  open_line :
      (body : Text) {whole : Text}
      → Lacks b'\n' body
      → whole ≡ codes "--" ++ body
      → s ≡ []
      → Leads s whole
  open_block :
      (body : Text) {whole : Text}
      → HasNoClose body
      → whole ≡ codes "/*" ++ body
      → s ≡ []
      → Leads s whole

after_newline-append :
    (body sql : Text) → Lacks b'\n' body → after_newline (body ++ (b'\n' ∷ sql)) ≡ sql
unfolding after_newline
after_newline-append [] sql h = refl
after_newline-append (c ∷ body) sql h = rw h.0 (after_newline-append body sql h.1)

after_close-append :
    (body sql : Text) → HasNoClose body → after_close (body ++ (b'*' ∷ b'/' ∷ sql)) ≡ sql
unfolding after_close
after_close-append [] sql h = refl
after_close-append (c ∷ []) sql h = ground arith
after_close-append (c ∷ d ∷ body) sql h = ground (arith, after_close-append (d ∷ body) sql)

after_newline-Lacks : (body : Text) → Lacks b'\n' body → after_newline body ≡ []
unfolding after_newline
after_newline-Lacks [] h = refl
after_newline-Lacks (c ∷ body) h = rw h.0 (after_newline-Lacks body h.1)

after_close-HasNoClose : (body : Text) → HasNoClose body → after_close body ≡ []
unfolding after_close
after_close-HasNoClose [] h = refl
after_close-HasNoClose (c ∷ []) h = refl
after_close-HasNoClose (c ∷ d ∷ body) h = ground (arith, after_close-HasNoClose (d ∷ body))

skip-line :
    (body sql : Text)
    → Lacks b'\n' body
    → skip_whitespace_and_comments (codes "--" ++ (body ++ (b'\n' ∷ sql)))
      ≡ skip_whitespace_and_comments sql
unfolding trim_start is_whitespace strip_prefix
skip-line body sql h =
    skip-some _ sql (
      after_comment-line _ (body ++ (b'\n' ∷ sql)) refl ∙ ap some (after_newline-append body sql h))

skip-block :
    (body sql : Text)
    → HasNoClose body
    → skip_whitespace_and_comments (codes "/*" ++ (body ++ (b'*' ∷ b'/' ∷ sql)))
      ≡ skip_whitespace_and_comments sql
unfolding trim_start is_whitespace strip_prefix
skip-block body sql h = skip-some _ sql (
    after_comment-block _ (body ++ (b'*' ∷ b'/' ∷ sql)) refl refl
    ∙ ap some (after_close-append body sql h))

skip-open_line :
    (body : Text)
    → Lacks b'\n' body
    → skip_whitespace_and_comments (codes "--" ++ body) ≡ skip_whitespace_and_comments []
unfolding trim_start is_whitespace strip_prefix
skip-open_line body h =
    skip-some _ [] (after_comment-line _ body refl ∙ ap some (after_newline-Lacks body h))

skip-open_block :
    (body : Text)
    → HasNoClose body
    → skip_whitespace_and_comments (codes "/*" ++ body) ≡ skip_whitespace_and_comments []
unfolding trim_start is_whitespace strip_prefix
skip-open_block body h =
    skip-some _ [] (after_comment-block _ body refl refl ∙ ap some (after_close-HasNoClose body h))

trim_start-space : (c : ℕ) (s : Text) → is_whitespace c ≡ true → trim_start (c ∷ s) ≡ trim_start s
unfolding trim_start
trim_start-space c s h = rw h

skip-space :
    (c : ℕ) (s : Text)
    → is_whitespace c ≡ true
    → skip_whitespace_and_comments (c ∷ s) ≡ skip_whitespace_and_comments s
skip-space c s h = elim (Option-cases (after_comment (trim_start s))) [
  | inl e ↦
      skip-none (c ∷ s) (rw (trim_start-space c s h) e)
      ∙ trim_start-space c s h
      ∙ sym (skip-none s e)
  | inr (rest, e) ↦
      skip-some (c ∷ s) rest (rw (trim_start-space c s h) e) ∙ sym (skip-some s rest e)
]

skip-Leads :
    {s sql : Text} → Leads s sql → skip_whitespace_and_comments sql ≡ skip_whitespace_and_comments s
skip-Leads here = refl
skip-Leads (space {c} {sql} h l) = skip-space c sql h ∙ skip-Leads l
skip-Leads (line body {sql} h e l) = rw e (skip-line body sql h ∙ skip-Leads l)
skip-Leads (block body {sql} h e l) = rw e (skip-block body sql h ∙ skip-Leads l)
skip-Leads (open_line body h e i) = rw (e, i) (skip-open_line body h)
skip-Leads (open_block body h e i) = rw (e, i) (skip-open_block body h)

-- Any whitespace, line comments and block comments put in front of a statement leave its
-- classification as it was.
pub is_row_returning_statement-Leads :
    (is_alphanumeric : ℕ → Bool) {s sql : Text}
    → Leads s sql
    → is_row_returning_statement is_alphanumeric sql ≡ is_row_returning_statement is_alphanumeric s
unfolding is_row_returning_statement
is_row_returning_statement-Leads is_alphanumeric l = rw (skip-Leads l)
