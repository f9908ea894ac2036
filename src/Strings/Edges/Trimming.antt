-- ===== src/Strings/Edges/Trimming.antt =====
-- Trimming, suffixes and lower case together.
use headless_db_mcp.Prelude.{
  ℕ, suc, ◌+◌, ◌≤◌, ◌<◌, false, ◌&&◌, leb, nat_eq, text_eq, nat_beq_refl, Option, none, some, [],
  ◌∷◌, ◌++◌, map, ◌≡◌, refl, sym, ◌∙◌, inl, inr, arith, Text, length, Bool-cases, Option-cases,
}
use headless_db_mcp.Strings.{is_whitespace, trim_start}
use headless_db_mcp.Strings.Edges.{
  keep, trim_end, trim, to_ascii_lower, to_ascii_lowercase, strip_suffix_char,
}

-- Between two characters that are no whitespace there is nothing to trim.
trim_end_closed :
    (s : Text) (d : ℕ) → is_whitespace d ≡ false → trim_end (s ++ (d ∷ [])) ≡ s ++ (d ∷ [])
unfolding trim_end
trim_end_closed [] d h = rw h refl
trim_end_closed (c ∷ []) d h = rw h refl
trim_end_closed (c ∷ e ∷ s) d h = rw (trim_end_closed (e ∷ s) d h) refl

pub trim_closed :
    (c : ℕ) (s : Text) (d : ℕ)
    → is_whitespace c ≡ false
    → is_whitespace d ≡ false
    → trim (c ∷ (s ++ (d ∷ []))) ≡ c ∷ (s ++ (d ∷ []))
unfolding trim trim_start
trim_closed c s d h k = rw h (trim_end_closed (c ∷ s) d k)

letter_not_white : (c : ℕ) → 0x41 ≤ c → c < 0x80 → is_whitespace c ≡ false
unfolding is_whitespace
letter_not_white c lo hi = ground arith

is_whitespace-to_ascii_lower : (c : ℕ) → is_whitespace (to_ascii_lower c) ≡ is_whitespace c
is_whitespace-to_ascii_lower c = elim (Bool-cases (leb b'A' c && leb c b'Z')) [
  | inl e ↦ rw e (
      letter_not_white (c + 32) (ground arith) (ground arith)
      ∙ sym (letter_not_white c (ground arith) (ground arith)))
  | inr e ↦ rw e refl
]

trim_start-lower :
    (s : Text) → trim_start (to_ascii_lowercase s) ≡ to_ascii_lowercase (trim_start s)
unfolding trim_start to_ascii_lowercase
trim_start-lower [] = refl
trim_start-lower (c ∷ s) = elim (Bool-cases (is_whitespace c)) [
  | inl e ↦ rw (is_whitespace-to_ascii_lower c, e) (trim_start-lower s)
  | inr e ↦ rw (is_whitespace-to_ascii_lower c, e) refl
]

keep-lower :
    (c : ℕ) (s : Text)
    → keep (to_ascii_lower c) (map to_ascii_lower s) ≡ map to_ascii_lower (keep c s)
keep-lower c [] = elim (Bool-cases (is_whitespace c)) [
  | inl e ↦ rw (is_whitespace-to_ascii_lower c, e) refl
  | inr e ↦ rw (is_whitespace-to_ascii_lower c, e) refl
]
keep-lower c (d ∷ s) = refl

trim_end-lower : (s : Text) → trim_end (to_ascii_lowercase s) ≡ to_ascii_lowercase (trim_end s)
unfolding trim_end to_ascii_lowercase
trim_end-lower [] = refl
trim_end-lower (c ∷ s) = rw (trim_end-lower s) (keep-lower c (trim_end s))

pub trim-lower : (s : Text) → trim (to_ascii_lowercase s) ≡ to_ascii_lowercase (trim s)
unfolding trim
trim-lower s = rw (trim_start-lower s) (trim_end-lower (trim_start s))

length-trim_start : (s : Text) → length (trim_start s) ≤ length s
unfolding trim_start
length-trim_start [] = omega arith
length-trim_start (c ∷ s) = ground (arith, length-trim_start s)

length-keep : (c : ℕ) (s : Text) → length (keep c s) ≤ suc (length s)
length-keep c [] = ground arith
length-keep c (d ∷ s) = omega arith

length-trim_end : (s : Text) → length (trim_end s) ≤ length s
unfolding trim_end
length-trim_end [] = omega arith
length-trim_end (c ∷ s) = omega (arith, length-trim_end s, length-keep c (trim_end s))

pub length-trim : (s : Text) → length (trim s) ≤ length s
unfolding trim
length-trim s = omega (arith, length-trim_start s, length-trim_end (trim_start s))

pub strip_suffix_char-append : (c : ℕ) (s : Text) → strip_suffix_char c (s ++ (c ∷ [])) ≡ some s
unfolding strip_suffix_char
strip_suffix_char-append c [] = rw (nat_beq_refl c) refl
strip_suffix_char-append c (d ∷ []) = rw (nat_beq_refl c) refl
strip_suffix_char-append c (d ∷ e ∷ s) = rw (strip_suffix_char-append c (e ∷ s)) refl

pub length-strip_suffix_char :
    (c : ℕ) (s : Text) {rest : Text}
    → strip_suffix_char c s ≡ some rest
    → length s ≡ suc (length rest)
unfolding strip_suffix_char
length-strip_suffix_char c [] h = cc
length-strip_suffix_char c (d ∷ []) h = ground arith
length-strip_suffix_char c (d ∷ e ∷ s) {rest} h =
    elim (Option-cases (strip_suffix_char c (e ∷ s))) [
      | inl n ↦ let impossible : ◌≡◌ {A = Option Text} none (some rest) = rw n at h in cc
      | inr (front, n) ↦
          let same : ◌≡◌ {A = Option Text} (some (d ∷ front)) (some rest) = rw n at h in
          ground (arith, length-strip_suffix_char c (e ∷ s) n)
    ]
