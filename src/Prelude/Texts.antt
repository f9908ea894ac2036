-- ===== src/Prelude/Texts.antt =====
-- Text that the code walks: the list of its code points.
use Prim.Native.Char.{code}
use Prim.Native.Nat.{ℕ}
use Prim.Native.String.{String}
use mathlib.Core.Bool.{Bool, true, false, ◌&&◌}
use mathlib.Core.List.{List, [], ◌∷◌}
use mathlib.Core.Logic.{◌↔◌}
use mathlib.Core.Path.{◌≡◌, refl}
use native.Mathlib.Omega.{arith}
use headless_db_mcp.Prelude.Booleans.{Eq, nat_beq, nat_beq_iff}

abbrev pub Text : Type 0
Text = List ℕ

-- A literal of the source.
abbrev pub codes : String → Text
codes (String.◌∷◌ c literal) = code c ∷ codes literal
codes String.[] = []

abbrev pub text_beq : Text → Text → Bool
text_beq [] [] = true
text_beq (a ∷ s) (b ∷ t) = nat_beq a b && text_beq s t
text_beq _ _ = false

text_beq_sound : (s t : Text) → text_beq s t ≡ true → s ≡ t
text_beq_sound [] [] h = refl
text_beq_sound [] (b ∷ t) h = ground arith
text_beq_sound (a ∷ s) [] h = ground arith
text_beq_sound (a ∷ s) (b ∷ t) h = ground (arith, nat_beq_iff a b, text_beq_sound s t)

text_beq_refl : (s : Text) → text_beq s s ≡ true
text_beq_refl [] = refl
text_beq_refl (a ∷ s) = ground (arith, text_beq_refl s)

pub text_beq_iff : (s t : Text) → (text_beq s t ≡ true) ↔ (s ≡ t)
text_beq_iff s t = (text_beq_sound s t, λ e. rw e (text_beq_refl t))

instance abbrev pub text_eq : Eq Text
text_eq = record { eq_iff = text_beq_iff; eq = text_beq }

-- A text that no proof looks into, such as an error's message.
unfoldable pub lit : String → Text
lit s = codes s
