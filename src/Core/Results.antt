-- ===== src/Core/Results.antt =====
-- crates/core/src/result.rs, schema.rs and limits.rs: what a driver answers with, and the cap on
-- rows. A duration is a number of milliseconds.
use headless_db_mcp.Core.{CellValue}
use headless_db_mcp.Prelude.{
  sym, ℕ, zero, suc, ◌-◌, ◌≤◌, Bool, leb, nat_eq, text_eq, Option, none, some, List, [], ◌∷◌, ◌++◌,
  ◌≡◌, refl, ap, ◌∙◌, arith, Text, length, if◌then◌else◌,
}

pub data IdentityKind : Type 0 where
  always by_default : IdentityKind

pub record ColumnInfo : Type 0 where
  pub name : Text
  pub data_type : Text
  pub is_nullable : Bool
  pub is_primary_key : Bool
  pub default_value : Option Text
  pub extra : Option Text
  pub charset : Option Text
  pub collation : Option Text
  pub comment : Option Text
  pub identity_kind : Option IdentityKind
  pub is_generated : Bool
  pub allowed_values : Option (List Text)

pub record QueryResult : Type 0 where
  pub columns : List Text
  pub column_type_names : List Text
  pub rows : List (List CellValue)
  pub rows_affected : ℕ
  pub execution_time : ℕ
  pub is_truncated : Bool
  pub status_message : Option Text
  pub column_meta : Option (List ColumnInfo)

pub record StreamHeader : Type 0 where
  pub columns : List Text
  pub column_type_names : List Text

pub data StreamElement : Type 0 where
  header : StreamHeader → StreamElement
  rows : List (List CellValue) → StreamElement

-- `RowLimits::EMERGENCY_MAX`
unfoldable pub emergency_max : ℕ
emergency_max = 5000000

abbrev pub min : ℕ → ℕ → ℕ
min a b = if leb a b then a else b

-- `row_cap.unwrap_or(EMERGENCY_MAX).min(EMERGENCY_MAX)`
unfoldable pub effective_cap : Option ℕ → ℕ
effective_cap none = min emergency_max emergency_max
effective_cap (some row_cap) = min row_cap emergency_max

-- `rows.truncate(n)`
unfoldable pub take {ℓ} : {A : Type ℓ} → ℕ → List A → List A
take zero xs = []
take (suc n) [] = []
take (suc n) (x ∷ xs) = x ∷ take n xs

pub length-take {ℓ} : {A : Type ℓ} (n : ℕ) (xs : List A) → length (take n xs) ≡ min n (length xs)
unfolding take
length-take zero xs = ground arith
length-take (suc n) [] = ground arith
length-take (suc n) (x ∷ xs) = ground (arith, length-take n xs)

pub take-all {ℓ} : {A : Type ℓ} (n : ℕ) (xs : List A) → length xs ≤ n → take n xs ≡ xs
unfolding take
take-all zero [] h = refl
take-all zero (x ∷ xs) h = absurd (omega arith)
take-all (suc n) [] h = refl
take-all (suc n) (x ∷ xs) h = ap (◌∷◌ x) (take-all n xs (omega arith))

pub effective_cap-le : (row_cap : Option ℕ) → effective_cap row_cap ≤ emergency_max
unfolding effective_cap
effective_cap-le none = ground arith
effective_cap-le (some c) = ground arith

-- What `take` leaves.
unfoldable pub drop {ℓ} : {A : Type ℓ} → ℕ → List A → List A
drop zero xs = xs
drop (suc n) [] = []
drop (suc n) (x ∷ xs) = drop n xs

pub length-drop {ℓ} : {A : Type ℓ} (n : ℕ) (xs : List A) → length (drop n xs) ≡ length xs - n
unfolding drop
length-drop zero xs = omega arith
length-drop (suc n) [] = omega arith
length-drop (suc n) (x ∷ xs) = omega (arith, length-drop n xs)

pub take-nil {ℓ} : {A : Type ℓ} (n : ℕ) → take {A = A} n [] ≡ []
unfolding take
take-nil zero = refl
take-nil (suc n) = refl

-- Taking more goes on where taking fewer stopped.
pub take-drop {ℓ} :
    {A : Type ℓ} (n k : ℕ) (xs : List A) → n ≤ k → take k xs ≡ take n xs ++ take (k - n) (drop n xs)
unfolding take drop
take-drop zero k xs h = ap (λ m. take m xs) (omega arith)
take-drop (suc n) zero xs h = absurd (omega arith)
take-drop (suc n) (suc k) [] h = sym (take-nil (suc k - suc n))
take-drop (suc n) (suc k) (x ∷ xs) h =
    ap (◌∷◌ x) (take-drop n k xs (omega arith))
    ∙ ap (λ m. x ∷ (take n xs ++ take m (drop n xs))) (omega arith)
