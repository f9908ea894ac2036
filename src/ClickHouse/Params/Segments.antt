-- ===== src/ClickHouse/Params/Segments.antt =====
-- The placeholders of a statement, read off its segments: what stands outside of quotes, quoted
-- literals, quoted identifiers, and question marks.
use headless_db_mcp.ClickHouse.Params.{
  plain, in_single_quote, in_backtick, placeholder, push_str, rewrite_from, rewrite_question_marks,
}
use headless_db_mcp.ClickHouse.Params.Rounds.{
  IsCopied, rewrite_from-copied, plain-single, plain-backtick, plain-bind, single-both,
  single-close, single-stay, backtick-both, backtick-close, backtick-stay,
}
use headless_db_mcp.Prelude.{
  ℕ, suc, ◌+◌, false, ◌==◌, nat_eq, List, [], ◌∷◌, ◌++◌, ◌≡◌, refl, ap, ◌∙◌, All, Text, codes,
  arith,
}
use headless_db_mcp.Quoting.Reading.{Ends}
use headless_db_mcp.Strings.{decimal}
use mathlib.Core.List.{append_assoc}

-- Between the quotes of a literal: a backslash with any character, a doubled quote, or any other.
pub data IsLiteral : Text → Type 0 where
  done : IsLiteral []
  other :
      {c : ℕ} {s : Text}
      → (c == b'\\') ≡ false
      → (c == b'\'') ≡ false
      → IsLiteral s
      → IsLiteral (c ∷ s)
  escaped : (c : ℕ) {s : Text} → IsLiteral s → IsLiteral (b'\\' ∷ c ∷ s)
  quote : {s : Text} → IsLiteral s → IsLiteral (b'\'' ∷ b'\'' ∷ s)

-- Between the backticks of an identifier: a doubled backtick, or any other character.
pub data IsIdent : Text → Type 0 where
  done : IsIdent []
  other : {c : ℕ} {s : Text} → (c == b'`') ≡ false → IsIdent s → IsIdent (c ∷ s)
  backtick : {s : Text} → IsIdent s → IsIdent (b'`' ∷ b'`' ∷ s)

pub data Segment : Type 0 where
  outside : (s : Text) → All IsCopied s → Segment
  literal : (s : Text) → IsLiteral s → Segment
  ident : (s : Text) → IsIdent s → Segment
  mark : Segment

abbrev pub literal_text : Text → Text
literal_text s = b'\'' ∷ (s ++ (b'\'' ∷ []))

abbrev pub ident_text : Text → Text
ident_text s = b'`' ∷ (s ++ (b'`' ∷ []))

-- The statement as it is written.
unfoldable pub written : List Segment → Text
written [] = []
written (outside s h ∷ segments) = s ++ written segments
written (literal s h ∷ segments) = literal_text s ++ written segments
written (ident s h ∷ segments) = ident_text s ++ written segments
written (mark ∷ segments) = b'?' ∷ written segments

-- The statement with its question marks as named parameters, numbered behind `n`.
unfoldable pub bound_after : ℕ → List Segment → Text
bound_after n [] = []
bound_after n (outside s h ∷ segments) = s ++ bound_after n segments
bound_after n (literal s h ∷ segments) = literal_text s ++ bound_after n segments
bound_after n (ident s h ∷ segments) = ident_text s ++ bound_after n segments
bound_after n (mark ∷ segments) =
    codes "unhex({p" ++ (decimal (suc n) ++ (codes ":String})" ++ bound_after (suc n) segments))

unfoldable pub marks : List Segment → ℕ
marks [] = 0
marks (mark ∷ segments) = suc (marks segments)
marks (_ ∷ segments) = marks segments

-- What follows a quoted segment does not go on with its quote, which would be a doubled one.
abbrev pub IsApart : List Segment → Type 0
IsApart [] = Unit
IsApart (literal s h ∷ segments) = Ends b'\'' (written segments) × IsApart segments
IsApart (ident s h ∷ segments) = Ends b'`' (written segments) × IsApart segments
IsApart (outside s h ∷ segments) = IsApart segments
IsApart (mark ∷ segments) = IsApart segments

literal_copied :
    (s rest : Text) (n : ℕ)
    → IsLiteral s
    → Ends b'\'' rest
    → rewrite_from in_single_quote n (s ++ (b'\'' ∷ rest))
      ≡ push_str (s ++ (b'\'' ∷ [])) (rewrite_from plain n rest)
literal_copied _ rest n done e = single-close n b'\'' rest refl e
literal_copied _ rest n (other {c} {s} h k l) e =
    single-stay n c (s ++ (b'\'' ∷ rest)) h k ∙ ap (push_str (c ∷ [])) (literal_copied s rest n l e)
literal_copied _ rest n (escaped c {s} l) e =
    single-both n b'\\' c (s ++ (b'\'' ∷ rest)) refl
    ∙ ap (push_str (b'\\' ∷ c ∷ [])) (literal_copied s rest n l e)
literal_copied _ rest n (quote {s} l) e =
    single-both n b'\'' b'\'' (s ++ (b'\'' ∷ rest)) refl
    ∙ ap (push_str (b'\'' ∷ b'\'' ∷ [])) (literal_copied s rest n l e)

ident_copied :
    (s rest : Text) (n : ℕ)
    → IsIdent s
    → Ends b'`' rest
    → rewrite_from in_backtick n (s ++ (b'`' ∷ rest))
      ≡ push_str (s ++ (b'`' ∷ [])) (rewrite_from plain n rest)
ident_copied _ rest n done e = backtick-close n b'`' rest refl e
ident_copied _ rest n (other {c} {s} h l) e =
    backtick-stay n c (s ++ (b'`' ∷ rest)) h ∙ ap (push_str (c ∷ [])) (ident_copied s rest n l e)
ident_copied _ rest n (backtick {s} l) e =
    backtick-both n b'`' b'`' (s ++ (b'`' ∷ rest)) refl refl
    ∙ ap (push_str (b'`' ∷ b'`' ∷ [])) (ident_copied s rest n l e)

marks_suc : (n k : ℕ) → suc n + k ≡ n + suc k
marks_suc n k = omega arith

rewrite_from-written :
    (n : ℕ) (segments : List Segment)
    → IsApart segments
    → rewrite_from plain n (written segments) ≡ (bound_after n segments, n + marks segments)
unfolding written bound_after marks
rewrite_from-written n [] h = unfold rewrite_from in ap (λ k. ([], k)) (omega arith)
rewrite_from-written n (outside s c ∷ segments) h =
    rewrite_from-copied s n (written segments) c
    ∙ ap (push_str s) (rewrite_from-written n segments h)
rewrite_from-written n (literal s l ∷ segments) h =
    plain-single n b'\'' _ refl
    ∙ ap (push_str (b'\'' ∷ [])) (
        rw (append_assoc s (b'\'' ∷ []) (written segments))
          (literal_copied s (written segments) n l h.0))
    ∙ ap (push_str (literal_text s)) (rewrite_from-written n segments h.1)
rewrite_from-written n (ident s l ∷ segments) h =
    plain-backtick n b'`' _ refl
    ∙ ap (push_str (b'`' ∷ [])) (
        rw (append_assoc s (b'`' ∷ []) (written segments))
          (ident_copied s (written segments) n l h.0))
    ∙ ap (push_str (ident_text s)) (rewrite_from-written n segments h.1)
rewrite_from-written n (mark ∷ segments) h =
    plain-bind n b'?' _ refl
    ∙ ap (push_str (placeholder (suc n))) (rewrite_from-written (suc n) segments h)
    ∙ unfold placeholder in
      rw
        (
          marks_suc n (marks segments),
          append_assoc (decimal (suc n)) (codes ":String})") (bound_after (suc n) segments),
        )
        refl

-- A statement that is made of segments, where no quoted one is followed by its own quote character:
-- the question marks outside of quotes, and no others, become the named parameters 1, 2 and so on in
-- their order, all else is copied, and the number of these question marks is returned.
pub rewrite_question_marks-written :
    (segments : List Segment)
    → IsApart segments
    → rewrite_question_marks (written segments) ≡ (bound_after 0 segments, marks segments)
unfolding rewrite_question_marks
rewrite_question_marks-written segments h =
    rewrite_from-written 0 segments h ∙ ap (λ k. (bound_after 0 segments, k)) (omega arith)
