-- ===== src/HashMap.antt =====
-- The standard library's `HashMap` and `BTreeMap`, as association lists: `get`, `insert`, `remove`
-- and `contains_key`. An insertion overwrites the entry of its key or adds one at the end.
use headless_db_mcp.Prelude.{
  Bool, true, false, Eq, beq_refl, ◌∙◌, ◌==◌, Option, none, some, List, [], ◌∷◌, ◌≡◌, refl, arith,
  if◌then◌else◌,
}

abbrev pub Map {ℓ κ} : Type ℓ → Type κ → Type (ℓ ⊔ κ)
Map K V = List (K × V)

abbrev pub is_some {ℓ} : {A : Type ℓ} → Option A → Bool
is_some none = false
is_some (some a) = true

module _ {ℓ κ} {K : Type ℓ} {V : Type κ} ⦃e : Eq K⦄ where
  unfoldable pub get : K → Map K V → Option V
  get key ((found, value) ∷ entries) = if found == key then some value else get key entries
  get key [] = none

  unfoldable pub insert : K → V → Map K V → Map K V
  insert key value ((found, old) ∷ entries) =
      if found == key then (key, value) ∷ entries else (found, old) ∷ insert key value entries
  insert key value [] = (key, value) ∷ []

  unfoldable pub remove : K → Map K V → Map K V
  remove key ((found, value) ∷ entries) =
      let rest = remove key entries in if found == key then rest else (found, value) ∷ rest
  remove key [] = []

  unfoldable pub contains_key : K → Map K V → Bool
  contains_key k m = is_some (get k m)

  pub get-insert :
      (key asked : K) (value : V) (entries : Map K V)
      → get asked (insert key value entries)
        ≡ (if key == asked then some value else get asked entries)
  unfolding insert get
  get-insert key asked value ((found, old) ∷ entries) = ground (
    arith,
    get-insert key asked value entries,
    e.eq_iff found key,
    e.eq_iff found asked,
    e.eq_iff key asked,
  )
  get-insert key asked value [] = refl

  pub get-remove :
      (key asked : K) (entries : Map K V)
      → get asked (remove key entries) ≡ (if key == asked then none else get asked entries)
  unfolding remove get
  get-remove key asked ((found, value) ∷ entries) = ground (
    arith,
    get-remove key asked entries,
    e.eq_iff found key,
    e.eq_iff found asked,
    e.eq_iff key asked,
  )
  get-remove key asked [] = ground arith

  pub get-insert_same :
      (key : K) (value : V) (entries : Map K V) → get key (insert key value entries) ≡ some value
  get-insert_same key value entries = get-insert key key value entries ∙ rw (beq_refl key)

  pub get-insert_other :
      (key asked : K) (value : V) (entries : Map K V)
      → (key == asked) ≡ false
      → get asked (insert key value entries) ≡ get asked entries
  get-insert_other key asked value entries h = get-insert key asked value entries ∙ rw h

  pub get-remove_same : (key : K) (entries : Map K V) → get key (remove key entries) ≡ none
  get-remove_same key entries = get-remove key key entries ∙ rw (beq_refl key)

  pub get-remove_other :
      (key asked : K) (entries : Map K V)
      → (key == asked) ≡ false
      → get asked (remove key entries) ≡ get asked entries
  get-remove_other key asked entries h = get-remove key asked entries ∙ rw h

pub ruleset map_laws = (get-insert, get-remove)
