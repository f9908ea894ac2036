-- ===== src/Sorting.antt =====
-- `sort_by` and `sort_by_key` of the standard library, which are stable: an insertion sort.
pub mod Sorted
use headless_db_mcp.Prelude.{
  Bool, true, false, ltb, ◌==◌, nat_eq, List, [], ◌∷◌, Text, if◌then◌else◌,
}

-- `str::cmp`: code points compare as their bytes do.
unfoldable pub text_leb : Text → Text → Bool
text_leb [] t = true
text_leb (a ∷ s) [] = false
text_leb (a ∷ s) (b ∷ t) =
    let rest = text_leb s t in if ltb a b then true else if a == b then rest else false

module _ {ℓ κ} {A : Type ℓ} {K : Type κ} (leb : K → K → Bool) (key : A → K) where
  -- In front of the first entry whose key is not less.
  unfoldable pub insert_sorted : A → List A → List A
  insert_sorted x [] = x ∷ []
  insert_sorted x (y ∷ ys) = if leb (key x) (key y) then x ∷ y ∷ ys else y ∷ insert_sorted x ys

  unfoldable pub sort_by_key : List A → List A
  unfolding insert_sorted
  sort_by_key [] = []
  sort_by_key (x ∷ xs) = insert_sorted x (sort_by_key xs)
