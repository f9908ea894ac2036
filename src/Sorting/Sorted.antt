-- ===== src/Sorting/Sorted.antt =====
-- The result is sorted and holds the same entries.
use mathlib.Core.List.{Perm}
use mathlib.Core.List.Perm
use headless_db_mcp.Prelude.{
  Bool, true, false, nat_eq, List, [], ◌∷◌, ◌≡◌, refl, inl, inr, arith, Text, Bool-cases,
}
use headless_db_mcp.Sorting.{text_leb, insert_sorted, sort_by_key}

module _ {ℓ κ} {A : Type ℓ} {K : Type κ} (leb : K → K → Bool) (key : A → K) where
  -- Each key is at most the next one.
  abbrev pub IsSorted : List A → Type 0
  IsSorted [] = Unit
  IsSorted (x ∷ []) = Unit
  IsSorted (x ∷ y ∷ ys) = (leb (key x) (key y) ≡ true) × IsSorted (y ∷ ys)

  insert_sorted-perm : (x : A) (ys : List A) → Perm (insert_sorted leb key x ys) (x ∷ ys)
  unfolding insert_sorted
  insert_sorted-perm x [] = Perm.refl (x ∷ [])
  insert_sorted-perm x (y ∷ ys) = elim (Bool-cases (leb (key x) (key y))) [
    | inl e ↦ rw e (Perm.refl (x ∷ y ∷ ys))
    | inr e ↦ rw e (Perm.trans (Perm.cons y (insert_sorted-perm x ys)) (Perm.swap x y ys))
  ]

  pub sort_by_key-perm : (xs : List A) → Perm (sort_by_key leb key xs) xs
  unfolding sort_by_key
  sort_by_key-perm [] = Perm.refl []
  sort_by_key-perm (x ∷ xs) =
      Perm.trans (insert_sorted-perm x (sort_by_key leb key xs)) (Perm.cons x (sort_by_key-perm xs))

  module _ (total : (x y : K) → leb x y ≡ false → leb y x ≡ true) where
    insert_sorted-IsSorted :
        (x : A) (ys : List A) → IsSorted ys → IsSorted (insert_sorted leb key x ys)
    unfolding insert_sorted
    insert_sorted-IsSorted x [] h = tt
    insert_sorted-IsSorted x (y ∷ []) h = ground (arith, total (key x) (key y))
    insert_sorted-IsSorted x (y ∷ z ∷ ys) h =
        ground (
          arith,
          total (key x) (key y),
          total (key x) (key z),
          insert_sorted-IsSorted x (z ∷ ys) h.1,
        )

    pub sort_by_key-IsSorted : (xs : List A) → IsSorted (sort_by_key leb key xs)
    unfolding sort_by_key
    sort_by_key-IsSorted [] = tt
    sort_by_key-IsSorted (x ∷ xs) =
        insert_sorted-IsSorted x (sort_by_key leb key xs) (sort_by_key-IsSorted xs)

pub text_leb_total : (s t : Text) → text_leb s t ≡ false → text_leb t s ≡ true
unfolding text_leb
text_leb_total [] t h = cc
text_leb_total (a ∷ s) [] h = refl
text_leb_total (a ∷ s) (b ∷ t) h = ground (arith, text_leb_total s t)
